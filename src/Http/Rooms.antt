-- ===== src/Http/Rooms.antt =====
-- internal/adapter/inbound/http/room_handler.go.
pub mod Answers
use chat_back.Prelude.{
  ℕ, Bool, true, false, not, List, [], ◌∷◌, Option, none, some, ◌==◌, ◌&&◌, ◌||◌, ltb,
  if◌then◌else◌,
}
use chat_back.Text.{Text, is_empty}
use chat_back.Domain.{
  Uuid, Time, Error, Room, RoomType, public, other, MemberRole, Member, RoomInvite, uuid_nil,
}
use chat_back.Store.{World, Result, ok, err}
use chat_back.Store.Sort.{Collation}
use chat_back.Ws.Protocol.{MessageType, ServerMessage, literal, blank}
use chat_back.App.RoomService
use chat_back.Http.{
  Caller, Param, absent, malformed, given, Body, Response, answer, no_content, fail, publishing,
  fail_internal, fail_bad_request, fail_forbidden, fail_forbidden_not_found, fail_any,
}

-- `if err != nil { … } ; writeJSON(w, status, x)`
abbrev pub respond : {A : Type 0} → ℕ → (Error → Response A) → Result A × World → Response A × World
respond status on_error (ok a, w) = (answer status a, w)
respond status on_error (err e, w) = (on_error e, w)

-- `if err != nil { … } ; w.WriteHeader(http.StatusNoContent)`
abbrev pub respond_empty :
    (Error → Response (Unit {0})) → Result (Unit {0}) × World → Response (Unit {0}) × World
respond_empty on_error (ok _, w) = (no_content, w)
respond_empty on_error (err e, w) = (on_error e, w)

unfoldable pub list : Caller → World → Response (List Room) × World
unfolding RoomService.list RoomService.list_all
list caller w =
    respond 200 fail_internal
      (if caller.is_admin then RoomService.list_all w else RoomService.list caller.user_id w)

unfoldable pub unread_counts : Caller → World → Response (List (Uuid × ℕ)) × World
unfolding RoomService.get_unread_counts
unread_counts caller w = respond 200 fail_internal (RoomService.get_unread_counts caller.user_id w)

unfoldable pub mark_read : Time → Caller → Param Uuid → World → Response (Unit {0}) × World
unfolding RoomService.mark_room_read
mark_read now caller (given room) w =
    respond_empty fail_internal (RoomService.mark_room_read now caller.user_id room w)
mark_read now caller _ w = (fail 400 (literal "invalid id"), w)

-- `if body.Type == "" { body.Type = RoomTypePublic }`
abbrev pub type_or_public : RoomType → RoomType
type_or_public (other t) = if is_empty t then public else other t
type_or_public t = t

unfoldable pub create : Uuid → Caller → Param (Text × RoomType) → World → Response Room × World
unfolding RoomService.create
create new_id caller (given (name, type)) w =
    respond 201 fail_bad_request
      (RoomService.create new_id name (type_or_public type) caller.user_id w)
create new_id caller _ w = (fail 400 (literal "invalid body"), w)

unfoldable pub delete : Caller → Param Uuid → World → Response (Unit {0}) × World
unfolding RoomService.delete
delete caller (given id) w =
    respond_empty fail_forbidden (RoomService.delete id caller.user_id caller.is_admin w)
delete caller _ w = (fail 400 (literal "invalid id"), w)

unfoldable pub invite_user :
    Uuid → Time → Caller → Param Uuid → Param Uuid → World → Response RoomInvite × World
unfolding RoomService.invite_user
invite_user new_id now caller (given room) (given user) w =
    if user == uuid_nil
    then (fail 400 (literal "invalid body"), w)
    else respond 201 fail_any (RoomService.invite_user new_id now room caller.user_id user w)
invite_user new_id now caller (given room) _ w = (fail 400 (literal "invalid body"), w)
invite_user new_id now caller _ user w = (fail 400 (literal "invalid id"), w)

unfoldable pub list_room_invites : Caller → Param Uuid → World → Response (List RoomInvite) × World
unfolding RoomService.list_room_invites
list_room_invites caller (given room) w =
    respond 200 fail_forbidden (RoomService.list_room_invites room caller.user_id w)
list_room_invites caller _ w = (fail 400 (literal "invalid id"), w)

unfoldable pub accept_invite : Caller → Param Uuid → World → Response (Unit {0}) × World
unfolding RoomService.accept_invite
accept_invite caller (given id) w =
    respond_empty fail_forbidden_not_found (RoomService.accept_invite id caller.user_id w)
accept_invite caller _ w = (fail 400 (literal "invalid id"), w)

unfoldable pub decline_invite : Caller → Param Uuid → World → Response (Unit {0}) × World
unfolding RoomService.decline_invite
decline_invite caller (given id) w =
    respond_empty fail_forbidden_not_found (RoomService.decline_invite id caller.user_id w)
decline_invite caller _ w = (fail 400 (literal "invalid id"), w)

unfoldable pub set_member_role :
    Caller → Param Uuid → Param Uuid → Param MemberRole → World → Response (Unit {0}) × World
unfolding RoomService.set_role
set_member_role caller (given room) (given target) (given role) w =
    respond_empty fail_forbidden_not_found (RoomService.set_role room caller.user_id target role w)
set_member_role caller (given room) (given target) _ w = (fail 400 (literal "invalid body"), w)
set_member_role caller (given room) _ role w = (fail 400 (literal "invalid uid"), w)
set_member_role caller _ target role w = (fail 400 (literal "invalid id"), w)

unfoldable pub kick_member : Caller → Param Uuid → Param Uuid → World → Response (Unit {0}) × World
unfolding RoomService.kick_member
kick_member caller (given room) (given target) w =
    respond_empty fail_any (RoomService.kick_member room caller.user_id target w)
kick_member caller (given room) _ w = (fail 400 (literal "invalid uid"), w)
kick_member caller _ target w = (fail 400 (literal "invalid id"), w)

unfoldable pub my_invites : Caller → World → Response (List RoomInvite) × World
unfolding RoomService.list_my_invites
my_invites caller w = respond 200 fail_internal (RoomService.list_my_invites caller.user_id w)

abbrev pub renamed_frame : Room → ServerMessage
renamed_frame r = record (blank MessageType.room_renamed) { room_id = r.id; name = r.name }

abbrev after_rename : Result Room × World → Response Room × World
after_rename (ok r, w) = (publishing r.id (renamed_frame r) (answer 200 r), w)
after_rename (err e, w) = (fail_any e, w)

unfoldable pub rename : Caller → Param Uuid → Param Text → World → Response Room × World
unfolding RoomService.rename
rename caller (given id) (given name) w =
    after_rename (RoomService.rename id caller.user_id name caller.is_admin w)
rename caller (given id) _ w = (fail 400 (literal "invalid body"), w)
rename caller _ name w = (fail 400 (literal "invalid id"), w)

-- Any caller is told, of any room.
unfoldable pub members : Collation → Caller → Param Uuid → World → Response (List Member) × World
unfolding RoomService.get_members
members before caller (given room) w =
    respond 200 fail_internal (RoomService.get_members before room w)
members before caller _ w = (fail 400 (literal "invalid id"), w)
