-- ===== src/Http/Messages.antt =====
-- internal/adapter/inbound/http/message_handler.go.
pub mod Access
use chat_back.Prelude.{
  ℕ, Bool, true, false, not, List, [], ◌∷◌, Option, none, some, ◌==◌, ◌&&◌, ◌||◌, ltb,
  if◌then◌else◌,
}
use chat_back.Text.{Text}
use chat_back.Domain.{Uuid, Time, Error, Message, MemberRole, is_owner, is_admin_role, uuid_nil}
use chat_back.Store.{World, Result, ok, err}
use chat_back.Ws.Protocol.{MessageType, ServerMessage, literal, blank}
use chat_back.App.RoomService
use chat_back.App.MessageService
use chat_back.Http.{
  Caller, Param, absent, malformed, given, Body, Response, answer, no_content, fail, publishing,
  fail_internal, fail_not_found, fail_any,
}

-- What the two optional query values make of the cursor and the limit.
abbrev pub cursor_of : Param Uuid → Option Uuid
cursor_of absent = some uuid_nil
cursor_of malformed = none
cursor_of (given c) = some c

-- A number that is not positive is refused as one that is no number is; `given 0` stands for those.
abbrev pub limit_of : Param ℕ → Option ℕ
limit_of absent = some 50
limit_of malformed = none
limit_of (given n) = if n == 0 then none else some n

-- `ok, err := IsMember(…); if err != nil || !ok { 403 }`
abbrev pub is_allowed : Result Bool → Bool
is_allowed (ok b) = b
is_allowed (err _) = false

abbrev listed : Result (List Message) → Response (List Message)
listed (ok ms) = answer 200 ms
listed (err e) = fail_internal e

unfoldable pub list_messages :
    (Uuid → Text) → Uuid → Uuid → ℕ → World → Response (List Message) × World
unfolding MessageService.history
list_messages uuid_text room cursor limit w =
    let (r, w') = MessageService.history uuid_text room cursor limit w in (listed r, w')

-- A site admin reads any room, anybody else the rooms that they are in.
unfoldable pub history_for :
    (Uuid → Text) → Caller → Uuid → Uuid → ℕ → World → Response (List Message) × World
unfolding list_messages RoomService.is_member
history_for uuid_text caller room cursor limit w =
    if caller.is_admin
    then list_messages uuid_text room cursor limit w
    else (let (r, w') = RoomService.is_member room caller.user_id w in
        if is_allowed r
        then list_messages uuid_text room cursor limit w'
        else (fail 403 (literal "forbidden"), w'))

unfoldable pub history :
    (Uuid → Text)
    → Caller
    → Param Uuid
    → Param Uuid
    → Param ℕ
    → World
    → Response (List Message) × World
unfolding history_for
history uuid_text caller (given room) cursor limit w = elim (cursor_of cursor) [
  | none ↦ (fail 400 (literal "invalid cursor"), w)
  | some c ↦ elim (limit_of limit) [
    | none ↦ (fail 400 (literal "invalid limit"), w)
    | some n ↦ history_for uuid_text caller room c n w
  ]
]
history uuid_text caller _ cursor limit w = (fail 400 (literal "invalid id"), w)

abbrev pub edited_frame : Message → ServerMessage
edited_frame m = record (blank MessageType.message_edited) {
  message_id = m.id;
  room_id = m.room_id;
  content = m.content;
  edited_at = m.edited_at;
}

abbrev after_edit : Result Message → Response Message
after_edit (ok m) = publishing m.room_id (edited_frame m) (answer 200 m)
after_edit (err e) = fail_any e

unfoldable pub edit_message :
    Time → Caller → Param Uuid → Param Text → World → Response Message × World
unfolding MessageService.edit
edit_message now caller (given id) (given content) w =
    let (r, w') = MessageService.edit now id caller.user_id content w in (after_edit r, w')
edit_message now caller (given id) _ w = (fail 400 (literal "invalid body"), w)
edit_message now caller _ content w = (fail 400 (literal "invalid id"), w)

abbrev pub deleted_frame : Uuid → Message → ServerMessage
deleted_frame id m = record (blank MessageType.message_deleted) {
  message_id = id;
  room_id = m.room_id;
}

abbrev after_delete : Uuid → Message → Result (Unit {0}) → Response (Unit {0})
after_delete id m (ok _) = publishing m.room_id (deleted_frame id m) no_content
after_delete id m (err e) = fail_internal e

unfoldable pub do_delete : Uuid → Message → World → Response (Unit {0}) × World
unfolding MessageService.delete_by_id
do_delete id m w = let (r, w') = MessageService.delete_by_id id w in (after_delete id m r, w')

-- `roleErr != nil || (role != owner && role != admin)`
abbrev pub moderates : Result MemberRole → Bool
moderates (ok role) = is_owner role || is_admin_role role
moderates (err _) = false

-- The author and a site admin may delete a message, and the owner and the admins of its room.
unfoldable pub delete_found : Caller → Uuid → Message → World → Response (Unit {0}) × World
unfolding do_delete RoomService.get_member_role
delete_found caller id m w =
    if (m.user_id == caller.user_id) || caller.is_admin
    then do_delete id m w
    else (let (role, w') = RoomService.get_member_role m.room_id caller.user_id w in
        if moderates role then do_delete id m w' else (fail 403 (literal "forbidden"), w'))

abbrev delete_after_lookup : Caller → Uuid → Result Message × World → Response (Unit {0}) × World
delete_after_lookup caller id (ok m, w) = delete_found caller id m w
delete_after_lookup caller id (err e, w) = (fail_not_found e, w)

unfoldable pub delete_message : Caller → Param Uuid → World → Response (Unit {0}) × World
unfolding delete_found MessageService.get_by_id
delete_message caller (given id) w = delete_after_lookup caller id (MessageService.get_by_id id w)
delete_message caller _ w = (fail 400 (literal "invalid id"), w)
