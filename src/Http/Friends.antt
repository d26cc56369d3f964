-- ===== src/Http/Friends.antt =====
-- internal/adapter/inbound/http/friend_handler.go.
use chat_back.Prelude.{Bool, List, ◌==◌, if◌then◌else◌, contains}
use chat_back.Text.{Text}
use chat_back.Domain.{
  Uuid, Time, Error, bad_request, not_found, Room, User, FriendEntry, FriendRequest, DmRoom,
  uuid_nil,
}
use chat_back.Store.{World}
use chat_back.Store.Sort.{Collation}
use chat_back.Ws.Protocol.{literal}
use chat_back.App.FriendService
use chat_back.App.UserService
use chat_back.Http.{Caller, Param, given, Response, fail, fail_internal}
use chat_back.Http.Rooms.{respond, respond_empty}

unfoldable pub search_users :
    (Text → Text → Bool) → Caller → Text → World → Response (List User) × World
unfolding UserService.search
search_users ilike caller q w =
    if contains b'#' q
    then respond 200 fail_internal (UserService.search ilike q caller.user_id w)
    else (fail 400 (literal "q must be in username#tag format"), w)

-- `err == domain.ErrBadRequest`
abbrev fail_request : Error → Response (Unit {0})
fail_request bad_request = fail 400 (literal "cannot send request to yourself")
fail_request _ = fail 500 (literal "internal")

unfoldable pub send_request :
    Uuid → Time → Caller → Param Uuid → World → Response (Unit {0}) × World
unfolding FriendService.send_request
send_request new_id now caller (given addressee) w =
    if addressee == uuid_nil
    then (fail 400 (literal "invalid body"), w)
    else respond_empty fail_request
        (FriendService.send_request new_id now caller.user_id addressee w)
send_request new_id now caller _ w = (fail 400 (literal "invalid body"), w)

unfoldable pub list_requests : Caller → World → Response (List FriendRequest) × World
unfolding FriendService.list_pending_received
list_requests caller w =
    respond 200 fail_internal (FriendService.list_pending_received caller.user_id w)

abbrev fail_accept : Error → Response (Unit {0})
fail_accept not_found = fail 404 (literal "request not found")
fail_accept _ = fail 500 (literal "internal")

unfoldable pub accept_request : Time → Caller → Param Uuid → World → Response (Unit {0}) × World
unfolding FriendService.accept
accept_request now caller (given id) w =
    respond_empty fail_accept (FriendService.accept now id caller.user_id w)
accept_request now caller _ w = (fail 400 (literal "invalid id"), w)

unfoldable pub remove : Caller → Param Uuid → World → Response (Unit {0}) × World
unfolding FriendService.remove
remove caller (given id) w = respond_empty fail_internal (FriendService.remove id caller.user_id w)
remove caller _ w = (fail 400 (literal "invalid id"), w)

unfoldable pub list_friends : Collation → Caller → World → Response (List FriendEntry) × World
unfolding FriendService.list_friends
list_friends before caller w =
    respond 200 fail_internal (FriendService.list_friends before caller.user_id w)

unfoldable pub create_dm : Uuid → Time → Caller → Param Uuid → World → Response Room × World
unfolding FriendService.get_or_create_dm
create_dm new_id now caller (given user) w =
    if user == uuid_nil
    then (fail 400 (literal "invalid body"), w)
    else respond 200 fail_internal (FriendService.get_or_create_dm new_id now caller.user_id user w)
create_dm new_id now caller _ w = (fail 400 (literal "invalid body"), w)

unfoldable pub list_dms : Caller → World → Response (List DmRoom) × World
unfolding FriendService.list_dms
list_dms caller w = respond 200 fail_internal (FriendService.list_dms caller.user_id w)
