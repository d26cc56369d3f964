-- ===== src/App/FriendService.antt =====
-- internal/app/friend_service.go.
pub mod Friendship
pub mod Direct
use chat_back.Prelude.{List, ◌==◌, if◌then◌else◌}
use chat_back.Domain.{Uuid, Time, Room, FriendEntry, FriendRequest, DmRoom, bad_request}
use chat_back.Store.{Query, ◌>>=◌, ◌>>◌, fail_if, Result, ok, err}
use chat_back.Store.Sort.{Collation}
use chat_back.Postgres.FriendRepo
use chat_back.Postgres.FriendRepo.Listings

unfoldable pub send_request : Uuid → Time → Uuid → Uuid → Query (Unit {0})
unfolding FriendRepo.send_request
send_request new_id now requester addressee = do
  fail_if (requester == addressee) bad_request
  FriendRepo.send_request new_id now requester addressee

unfoldable pub accept : Time → Uuid → Uuid → Query (Unit {0})
unfolding FriendRepo.accept
accept now id addressee = FriendRepo.accept now id addressee

unfoldable pub remove : Uuid → Uuid → Query (Unit {0})
unfolding FriendRepo.remove
remove id user = FriendRepo.remove id user

unfoldable pub get_or_create_dm : Uuid → Time → Uuid → Uuid → Query Room
unfolding FriendRepo.get_or_create_dm
get_or_create_dm new_id now user₁ user₂ = FriendRepo.get_or_create_dm new_id now user₁ user₂

unfoldable pub list_friends : Collation → Uuid → Query (List FriendEntry)
unfolding Listings.list_friends
list_friends before user = Listings.list_friends before user

unfoldable pub list_pending_received : Uuid → Query (List FriendRequest)
unfolding Listings.list_pending_received
list_pending_received user = Listings.list_pending_received user

unfoldable pub list_dms : Uuid → Query (List DmRoom)
unfolding Listings.list_dms
list_dms user = Listings.list_dms user
