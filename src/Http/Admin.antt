-- ===== src/Http/Admin.antt =====
-- internal/adapter/inbound/http/admin_handler.go. A time that a statement casts to text is the
-- time itself.
pub mod Removal
use chat_back.Prelude.{Bool, List, ◌==◌, if◌then◌else◌}
use chat_back.Text.{Text, trim_space, is_empty}
use chat_back.Domain.{Uuid}
use chat_back.Store.{World}
use chat_back.Store.Sort.{Collation}
use chat_back.Ws.Protocol.{literal}
use chat_back.Postgres.AdminRepo
use chat_back.Postgres.AdminRepo.{UserLine, RoomLine, FriendLine}
use chat_back.Http.{Caller, Param, given, Response, fail, fail_internal}
use chat_back.Http.Rooms.{respond, respond_empty}

-- The middleware around each of the handlers.
unfoldable pub require_admin :
    {A : Type 0} → (Caller → World → Response A × World) → Caller → World → Response A × World
require_admin h caller w =
    if caller.is_admin then h caller w else (fail 403 (literal "forbidden"), w)

unfoldable pub list_users : Caller → World → Response (List UserLine) × World
unfolding AdminRepo.list_users
list_users caller w = respond 200 fail_internal (AdminRepo.list_users w)

unfoldable pub delete_user : Param Uuid → Caller → World → Response (Unit {0}) × World
unfolding AdminRepo.delete_user
delete_user (given id) caller w =
    if caller.user_id == id
    then (fail 400 (literal "cannot delete yourself"), w)
    else respond_empty fail_internal (AdminRepo.delete_user id w)
delete_user _ caller w = (fail 400 (literal "invalid id"), w)

unfoldable pub list_rooms : Caller → World → Response (List RoomLine) × World
unfolding AdminRepo.list_rooms
list_rooms caller w = respond 200 fail_internal (AdminRepo.list_rooms w)

unfoldable pub delete_room : Param Uuid → Caller → World → Response (Unit {0}) × World
unfolding AdminRepo.delete_room
delete_room (given id) caller w = respond_empty fail_internal (AdminRepo.delete_room id w)
delete_room _ caller w = (fail 400 (literal "invalid id"), w)

unfoldable pub rename_room : Param Uuid → Param Text → Caller → World → Response (Unit {0}) × World
unfolding AdminRepo.rename_room trim_space
rename_room (given id) (given name) caller w =
    let trimmed = trim_space name in
    if is_empty trimmed
    then (fail 400 (literal "name required"), w)
    else respond_empty fail_internal (AdminRepo.rename_room id trimmed w)
rename_room (given id) _ caller w = (fail 400 (literal "invalid body"), w)
rename_room _ name caller w = (fail 400 (literal "invalid id"), w)

unfoldable pub list_user_friends :
    Collation → Param Uuid → Caller → World → Response (List FriendLine) × World
unfolding AdminRepo.list_user_friends
list_user_friends before (given id) caller w =
    respond 200 fail_internal (AdminRepo.list_user_friends before id w)
list_user_friends before _ caller w = (fail 400 (literal "invalid id"), w)

unfoldable pub toggle_admin : Param Uuid → Param Bool → Caller → World → Response (Unit {0}) × World
unfolding AdminRepo.set_admin
toggle_admin (given id) body caller w =
    if caller.user_id == id
    then (fail 400 (literal "cannot change own admin status"), w)
    else elim body [
      | given is_admin ↦ respond_empty fail_internal (AdminRepo.set_admin id is_admin w)
      | _ ↦ (fail 400 (literal "invalid body"), w)
    ]
toggle_admin _ body caller w = (fail 400 (literal "invalid id"), w)
