-- ===== src/Postgres/MessageRepo.antt =====
-- internal/adapter/outbound/postgres/message_repo.go. How a UUID is printed is a parameter,
-- `uuid_text`: the statement of `ListBefore` has PostgreSQL build the avatar's address of it.
pub mod Page
pub mod Walk
use chat_back.Prelude.{
  ℕ, Bool, true, false, not, List, [], ◌∷◌, ◌++◌, Option, none, some, ◌==◌, ◌&&◌, ◌||◌, ltb,
  if◌then◌else◌, map, take, exists_row, find_row, select, delete_where, update_where, is_some,
}
use chat_back.Text.{Text, has_nul}
use chat_back.Domain.{
  Uuid, Time, uuid_nil, Error, not_found, driver, foreign_key_violation, unique_violation,
  messages_pkey, Message, character_not_in_repertoire,
}
use chat_back.Store.{
  UserRow, MessageRow, Db, World, Result, ok, err, Query, call, read, has_user, has_room,
  timestamptz,
}
use chat_back.Store.Order.{order_by}
use chat_back.Postgres.RoomRepo.{or_not_found}
use chat_back.Postgres.InviteRepo.{user_with}

abbrev pub row_of : Message → MessageRow
row_of m = record {
  id = m.id;
  room_id = m.room_id;
  user_id = m.user_id;
  username = m.username;
  content = m.content;
  created_at = timestamptz m.created_at;
  edited_at = none;
}

abbrev pub message_with : Uuid → Db → Option MessageRow
message_with id db = find_row (λ (m : MessageRow). m.id == id) db.messages

unfoldable pub insert_message : Message → Db → Result (Unit {0}) × Db
unfolding has_nul timestamptz
insert_message m db =
    if has_nul m.username || has_nul m.content
    then (err (driver character_not_in_repertoire), db)
    else if exists_row (λ (r : MessageRow). r.id == m.id) db.messages
    then (err (driver (unique_violation messages_pkey)), db)
    else if not (has_room m.room_id db && has_user m.user_id db)
    then (err (driver foreign_key_violation), db)
    else (ok tt, record db { messages = row_of m ∷ db.messages })

unfoldable pub save : Message → Query (Unit {0})
unfolding insert_message
save m = call (insert_message m)

abbrev display_name_of : Option UserRow → Text
display_name_of none = []
display_name_of (some u) = elim u.display_name [ none ↦ [] | some t ↦ t ]

-- `/api/users/` and `/avatar`.
abbrev pub avatar_prefix : Text
avatar_prefix = 47 ∷ 97 ∷ 112 ∷ 105 ∷ 47 ∷ 117 ∷ 115 ∷ 101 ∷ 114 ∷ 115 ∷ 47 ∷ []

abbrev pub avatar_suffix : Text
avatar_suffix = 47 ∷ 97 ∷ 118 ∷ 97 ∷ 116 ∷ 97 ∷ 114 ∷ []

abbrev avatar_url_of : (Uuid → Text) → Uuid → Option UserRow → Text
avatar_url_of uuid_text id none = []
avatar_url_of uuid_text id (some u) =
    if is_some u.avatar_data then avatar_prefix ++ (uuid_text id ++ avatar_suffix) else []

-- A row of `ListBefore`, with its left join.
unfoldable pub message_of : (Uuid → Text) → Db → MessageRow → Message
message_of uuid_text db m = record {
  id = m.id;
  room_id = m.room_id;
  user_id = m.user_id;
  username = m.username;
  display_name = display_name_of (user_with m.user_id db);
  avatar_url = avatar_url_of uuid_text m.user_id (user_with m.user_id db);
  content = m.content;
  created_at = m.created_at;
  edited_at = m.edited_at;
}

-- The `WHERE`: `uuid.Nil` stands for no cursor.
abbrev pub before_cursor : Uuid → Uuid → MessageRow → Bool
before_cursor room cursor m =
    if cursor == uuid_nil then m.room_id == room else m.room_id == room && ltb m.id cursor

unfoldable pub page : Uuid → Uuid → ℕ → List MessageRow → List MessageRow
page room cursor limit rows =
    take limit (order_by (λ (m : MessageRow). m.id) (select (before_cursor room cursor) rows))

unfoldable pub list_before : (Uuid → Text) → Uuid → Uuid → ℕ → Query (List Message)
unfolding page message_of
list_before uuid_text room cursor limit =
    read (λ db. ok (map (message_of uuid_text db) (page room cursor limit db.messages)))

abbrev bare_message : MessageRow → Message
bare_message m = record {
  id = m.id;
  room_id = m.room_id;
  user_id = m.user_id;
  username = m.username;
  display_name = [];
  avatar_url = [];
  content = m.content;
  created_at = m.created_at;
  edited_at = m.edited_at;
}

unfoldable pub get_by_id : Uuid → Query Message
get_by_id id =
    read (λ db. elim (message_with id db) [ none ↦ err not_found | some m ↦ ok (bare_message m) ])

unfoldable pub update_content : Uuid → Text → Time → Query (Unit {0})
unfolding has_nul timestamptz
update_content id content edited_at = call (λ db.
    if has_nul content
    then (err (driver character_not_in_repertoire), db)
    else if exists_row (λ (m : MessageRow). m.id == id) db.messages
    then (
      ok tt,
      record db {
        messages =
            update_where (λ (m : MessageRow). m.id == id)
              (λ m. record m { content = content; edited_at = some (timestamptz edited_at) })
              db.messages;
      },
    )
    else (err not_found, db))

unfoldable pub delete : Uuid → Query (Unit {0})
delete id = call (λ db.
    (ok tt, record db { messages = delete_where (λ (m : MessageRow). m.id == id) db.messages }))
