-- ===== src/Http/Messages/Access.antt =====
-- Who may read and who may delete messages over HTTP.
use chat_back.Prelude.{
  ℕ, true, List, [], Option, none, some, ◌==◌, ◌≡◌, ◌≢◌, ◌⊎◌, ◌↔◌, refl, arith, if◌then◌else◌,
  length,
}
use chat_back.Text.{Text}
use chat_back.Domain.{Uuid, Message, owner, admin}
use chat_back.Store.{World, Db, MessageRow, next_fails, later_faults}
use chat_back.Postgres.RoomRepo.{role_in}
use chat_back.Postgres.RoomRepo.Seats.{exists-role_of}
use chat_back.Postgres.MessageRepo.{message_with}
use chat_back.App.MessageService.Edits.{find_row-delete}
use chat_back.Ws.Protocol.{literal}
use chat_back.Http.{Caller, Param, absent, malformed, given, Response, fail}
use chat_back.Http.Messages.{
  history, history_for, list_messages, delete_message, cursor_of, limit_of,
}

-- Who may delete a message: its author, a site admin, the owner and the admins of its room.
abbrev pub MayDelete : Caller → Option MessageRow → Db → Type 0
MayDelete caller none db = ⊥
MayDelete caller (some m) db =
    (m.user_id ≡ caller.user_id)
    ⊎ (caller.is_admin ≡ true)
    ⊎ (role_in m.room_id caller.user_id db ≡ some owner)
    ⊎ (role_in m.room_id caller.user_id db ≡ some admin)

abbrev pub frames_of : {A : Type 0} → Response A → ℕ
frames_of r = length r.published

delete_message_allowed :
    (caller : Caller) (id : Uuid) (w : World)
    → (delete_message caller (given id) w).0.status ≡ 204
    → MayDelete caller (message_with id w.db) w.db
unfolding delete_message
delete_message_allowed caller id w h = ground arith

delete_message_succeeds :
    (caller : Caller) (id : Uuid) (w : World)
    → w.faults ≡ []
    → MayDelete caller (message_with id w.db) w.db
    → (delete_message caller (given id) w).0.status ≡ 204
unfolding delete_message next_fails later_faults
delete_message_succeeds caller id w f h = ground arith

delete_message_deletes :
    (caller : Caller) (id j : Uuid) (w : World)
    → (delete_message caller (given id) w).0.status ≡ 204
    → message_with j (delete_message caller (given id) w).1.db
      ≡ (if j == id then none else message_with j w.db)
unfolding delete_message
delete_message_deletes caller id j w h = ground (arith, find_row-delete id j w.db.messages)

delete_message_publishes :
    (caller : Caller) (id : Uuid) (w : World)
    → (delete_message caller (given id) w).0.status ≡ 204
    → frames_of (delete_message caller (given id) w).0 ≡ 1
unfolding delete_message
delete_message_publishes caller id w h = ground arith

-- With the database at hand, a message is deleted (204) exactly when it is there and the caller is
-- its author, a site admin, or the owner or an admin of its room. It is then gone, every other
-- message stays, and one frame is published.
pub delete_message_iff :
    (caller : Caller) (id : Uuid) (w : World)
    → w.faults ≡ []
    → (((delete_message caller (given id) w).0.status ≡ 204)
        ↔ MayDelete caller (message_with id w.db) w.db)
      × ((delete_message caller (given id) w).0.status ≡ 204
          → (frames_of (delete_message caller (given id) w).0 ≡ 1)
            × ((j : Uuid)
                → message_with j (delete_message caller (given id) w).1.db
                  ≡ (if j == id then none else message_with j w.db)))
delete_message_iff caller id w f = (
  (delete_message_allowed caller id w, delete_message_succeeds caller id w f),
  λ h. (delete_message_publishes caller id w h, λ j. delete_message_deletes caller id j w h),
)

-- Whichever calls do not reach the database, a request to delete that is not answered by 204 leaves the tables as
-- they were and publishes nothing.
pub delete_message_keeps :
    (caller : Caller) (id : Param Uuid) (w : World)
    → (delete_message caller id w).0.status ≢ 204
    → ((delete_message caller id w).1.db ≡ w.db) × ((delete_message caller id w).0.published ≡ [])
unfolding delete_message
delete_message_keeps caller (given id) w h = ground arith
delete_message_keeps caller absent w h = ground arith
delete_message_keeps caller malformed w h = ground arith

list_messages-db :
    (uuid_text : Uuid → Text) (room cursor : Uuid) (limit : ℕ) (w : World)
    → (list_messages uuid_text room cursor limit w).1.db ≡ w.db
unfolding list_messages
list_messages-db uuid_text room cursor limit w = ground arith

history_for_allowed :
    (uuid_text : Uuid → Text) (caller : Caller) (room cursor : Uuid) (limit : ℕ) (w : World)
    → ((history_for uuid_text caller room cursor limit w).1.db ≡ w.db)
      × ((history_for uuid_text caller room cursor limit w).0.status ≡ 200
          → (caller.is_admin ≡ true) ⊎ (role_in room caller.user_id w.db ≢ none))
unfolding history_for
history_for_allowed uuid_text caller room cursor limit w =
    (ground arith, λ h. ground (arith, exists-role_of room caller.user_id w.db.room_members))

-- Whichever calls do not reach the database, reading a room's messages changes no table, and it is answered by 200
-- only to a site admin and to those who are in the room.
pub history_authorised :
    (uuid_text : Uuid → Text) (caller : Caller) (room : Uuid) (cursor : Param Uuid)
    (limit : Param ℕ) (w : World)
    → ((history uuid_text caller (given room) cursor limit w).1.db ≡ w.db)
      × ((history uuid_text caller (given room) cursor limit w).0.status ≡ 200
          → (caller.is_admin ≡ true) ⊎ (role_in room caller.user_id w.db ≢ none))
unfolding history
history_authorised uuid_text caller room cursor limit w =
    by_params (cursor_of cursor) (limit_of limit)
  where
    answer_of : Option Uuid → Option ℕ → Response (List Message) × World
    answer_of c l = elim c [
      | none ↦ (fail 400 (literal "invalid cursor"), w)
      | some c ↦ elim l [
        | none ↦ (fail 400 (literal "invalid limit"), w)
        | some n ↦ history_for uuid_text caller room c n w
      ]
    ]

    by_params :
        (c : Option Uuid) (l : Option ℕ)
        → ((answer_of c l).1.db ≡ w.db)
          × ((answer_of c l).0.status ≡ 200
              → (caller.is_admin ≡ true) ⊎ (role_in room caller.user_id w.db ≢ none))
    by_params none l = (refl, λ h. absurd (ground (arith, h)))
    by_params (some c) none = (refl, λ h. absurd (ground (arith, h)))
    by_params (some c) (some n) = history_for_allowed uuid_text caller room c n w
