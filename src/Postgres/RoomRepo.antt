-- ===== src/Postgres/RoomRepo.antt =====
-- internal/adapter/outbound/postgres/room_repo.go.
pub mod Seats
pub mod Members
use chat_back.Prelude.{
  ℕ, zero, suc, Bool, true, false, not, List, [], ◌∷◌, Option, none, some, ◌==◌, ◌&&◌, ◌||◌, ltb,
  if◌then◌else◌, map, exists_row, find_row, select, delete_where, update_where, count_where,
}
use chat_back.Text.{Text, has_nul}
use chat_back.Domain.{
  Uuid, Time, Error, not_found, forbidden, driver, check_violation, character_not_in_repertoire,
  foreign_key_violation, unique_violation, rooms_pkey, Room, RoomType, public, private, dm, voice,
  other, MemberRole, owner, admin, member, other_role,
}
use chat_back.Store.{
  UserRow, MemberRow, MessageRow, InviteRow, ReadRow, Db, World, Result, ok, err, Query, call, read,
  has_user, has_room, is_seat, ◌>>=◌, ◌>>◌, fail_if, return,
}
use chat_back.Store.Order.{order_by}

-- `rooms_type_check`
abbrev pub valid_type : RoomType → Bool
valid_type (other _) = false
valid_type _ = true

-- The check on `room_members.role`.
abbrev pub valid_role : MemberRole → Bool
valid_role (other_role _) = false
valid_role _ = true

unfoldable pub insert_room : Room → Db → Result (Unit {0}) × Db
unfolding has_nul
insert_room room db =
    if has_nul room.name
    then (err (driver character_not_in_repertoire), db)
    else if not (valid_type room.type)
    then (err (driver check_violation), db)
    else if has_room room.id db
    then (err (driver (unique_violation rooms_pkey)), db)
    else if not (has_user room.owner_id db)
    then (err (driver foreign_key_violation), db)
    else (ok tt, record db { rooms = room ∷ db.rooms })

unfoldable pub create : Room → Query (Unit {0})
unfolding insert_room
create room = call (insert_room room)

abbrev pub room_with : Uuid → Db → Option Room
room_with id db = find_row (λ (r : Room). r.id == id) db.rooms

abbrev pub or_not_found : {A : Type 0} → Option A → Result A
or_not_found none = err not_found
or_not_found (some a) = ok a

unfoldable pub get_by_id : Uuid → Query Room
get_by_id id = read (λ db. or_not_found (room_with id db))

abbrev is_public : RoomType → Bool
is_public public = true
is_public _ = false

abbrev is_dm : RoomType → Bool
is_dm dm = true
is_dm _ = false

abbrev is_voice : RoomType → Bool
is_voice voice = true
is_voice _ = false

abbrev is_private_type : RoomType → Bool
is_private_type private = true
is_private_type _ = false

unfoldable pub list : Query (List Room)
list = read (λ db.
    ok (order_by (λ (r : Room). r.created_at) (select (λ (r : Room). is_public r.type) db.rooms)))

-- `DELETE FROM rooms`: the rows that refer to a deleted room go with it (`ON DELETE CASCADE`).
unfoldable pub remove_room : Uuid → Db → Db
remove_room id db = record db {
  rooms = delete_where (λ (r : Room). r.id == id) db.rooms;
  room_members = delete_where (λ (m : MemberRow). m.room_id == id) db.room_members;
  messages = delete_where (λ (m : MessageRow). m.room_id == id) db.messages;
  room_invites = delete_where (λ (i : InviteRow). i.room_id == id) db.room_invites;
  room_reads = delete_where (λ (r : ReadRow). r.room_id == id) db.room_reads;
}

-- `WHERE id = $1 AND owner_id = $2`; `id` is the primary key, so the cascade starts from that row.
unfoldable pub delete : Uuid → Uuid → Query (Unit {0})
unfolding remove_room
delete id owner_id = call (λ db.
    if exists_row (λ (r : Room). r.id == id && r.owner_id == owner_id) db.rooms
    then (ok tt, remove_room id db)
    else (err forbidden, db))

unfoldable pub delete_any : Uuid → Query (Unit {0})
unfolding remove_room
delete_any id = call (λ db. (ok tt, remove_room id db))

abbrev pub with_role : MemberRole → MemberRow → MemberRow
with_role role m = record m { role = role }

-- `INSERT … ON CONFLICT (room_id, user_id) DO UPDATE SET role = EXCLUDED.role`
unfoldable pub upsert_member : Uuid → Uuid → MemberRole → Db → Result (Unit {0}) × Db
upsert_member room user role db =
    if not (valid_role role)
    then (err (driver check_violation), db)
    else if exists_row (is_seat room user) db.room_members
    then (
      ok tt,
      record db {
        room_members = update_where (is_seat room user) (with_role role) db.room_members;
      },
    )
    else if has_room room db && has_user user db
    then (
      ok tt,
      record db {
        room_members = (record { room_id = room; user_id = user; role = role }) ∷ db.room_members;
      },
    )
    else (err (driver foreign_key_violation), db)

unfoldable pub add_member : Uuid → Uuid → MemberRole → Query (Unit {0})
unfolding upsert_member
add_member room user role = call (upsert_member room user role)

unfoldable pub remove_member : Uuid → Uuid → Query (Unit {0})
remove_member room user =
    call
      (λ db. (ok tt, record db { room_members = delete_where (is_seat room user) db.room_members }))

-- `SELECT role FROM room_members WHERE room_id = $1 AND user_id = $2`
unfoldable pub role_of : Uuid → Uuid → List MemberRow → Option MemberRole
role_of room user [] = none
role_of room user (m ∷ ms) =
    let rest = role_of room user ms in if is_seat room user m then some m.role else rest

abbrev pub role_in : Uuid → Uuid → Db → Option MemberRole
role_in room user db = role_of room user db.room_members

unfoldable pub get_member_role : Uuid → Uuid → Query MemberRole
get_member_role room user = read (λ db. or_not_found (role_in room user db))

unfoldable pub set_member_role : Uuid → Uuid → MemberRole → Query (Unit {0})
set_member_role room user role = call (λ db.
    if not (exists_row (is_seat room user) db.room_members)
    then (err not_found, db)
    else if not (valid_role role)
    then (err (driver check_violation), db)
    else (
      ok tt,
      record db {
        room_members = update_where (is_seat room user) (with_role role) db.room_members;
      },
    ))

unfoldable pub member_count : Uuid → Query ℕ
member_count room =
    read (λ db. ok (count_where (λ (m : MemberRow). m.room_id == room) db.room_members))

unfoldable pub is_member : Uuid → Uuid → Query Bool
is_member room user = read (λ db. ok (exists_row (is_seat room user) db.room_members))

unfoldable pub rename : Uuid → Text → Query (Unit {0})
unfolding has_nul
rename id name = call (λ db.
    if has_nul name
    then (err (driver character_not_in_repertoire), db)
    else if not (has_room id db)
    then (err not_found, db)
    else (
      ok tt,
      record db {
        rooms = update_where (λ (r : Room). r.id == id) (λ r. record r { name = name }) db.rooms;
      },
    ))

unfoldable pub list_all : Query (List Room)
list_all = read (λ db. ok (order_by (λ (r : Room). r.created_at) db.rooms))

abbrev is_read_row : Uuid → Uuid → ReadRow → Bool
is_read_row user room r = r.user_id == user && r.room_id == room

unfoldable pub mark_room_read : Time → Uuid → Uuid → Query (Unit {0})
mark_room_read now user room = call (λ db.
    if exists_row (is_read_row user room) db.room_reads
    then (
      ok tt,
      record db {
        room_reads =
            update_where (is_read_row user room) (λ r. record r { last_read_at = now })
              db.room_reads;
      },
    )
    else if has_room room db && has_user user db
    then (
      ok tt,
      record db {
        room_reads =
            (record { user_id = user; room_id = room; last_read_at = now }) ∷ db.room_reads;
      },
    )
    else (err (driver foreign_key_violation), db))

-- The `WHERE` of `ListForUser`: open rooms, and the private rooms that the user is a member of.
unfoldable pub listed_for : Uuid → Db → Room → Bool
listed_for user db r =
    is_public r.type
    || is_voice r.type
    || (is_private_type r.type && exists_row (is_seat r.id user) db.room_members)

unfoldable pub list_for_user : Uuid → Query (List Room)
unfolding listed_for
list_for_user user =
    read (λ db. ok (order_by (λ (r : Room). r.created_at) (select (listed_for user db) db.rooms)))

-- The rooms of `GetUnreadCounts`: those of `ListForUser`, and the user's DMs.
unfoldable pub counted_for : Uuid → Db → Room → Bool
counted_for user db r =
    is_public r.type
    || is_voice r.type
    || ((is_private_type r.type || is_dm r.type) && exists_row (is_seat r.id user) db.room_members)

unfoldable pub is_unread : Uuid → Db → MessageRow → Bool
is_unread user db m =
    not (m.user_id == user) && elim (find_row (is_read_row user m.room_id) db.room_reads) [
      | none ↦ true
      | some r ↦ ltb r.last_read_at m.created_at
    ]

abbrev unread_in : Uuid → Db → Uuid → ℕ
unread_in user db room =
    count_where (λ (m : MessageRow). m.room_id == room && is_unread user db m) db.messages

-- One entry for each room with unread messages; the map's order is not part of the result.
unfoldable pub unread_counts : Uuid → Db → List Room → List (Uuid × ℕ)
unread_counts user db [] = []
unread_counts user db (r ∷ rs) =
    let rest = unread_counts user db rs in
    if counted_for user db r && ltb 0 (unread_in user db r.id)
    then (r.id, unread_in user db r.id) ∷ rest
    else rest

unfoldable pub get_unread_counts : Uuid → Query (List (Uuid × ℕ))
unfolding unread_counts counted_for is_unread
get_unread_counts user = read (λ db. ok (unread_counts user db db.rooms))
