-- ===== src/Postgres/FriendRepo/Listings.antt =====
-- The listings of friend_repo.go.
use chat_back.Prelude.{
  Bool, not, List, [], ◌∷◌, Option, none, some, ◌==◌, ◌&&◌, ◌||◌, if◌then◌else◌, select, is_some,
  collect, exists_row, ◌++◌,
}
use chat_back.Domain.{Uuid, FriendEntry, FriendRequest, OtherUser, DmRoom, Room, is_unanswered}
use chat_back.Store.{UserRow, FriendRow, MemberRow, Db, Query, ok, read, is_seat}
use chat_back.Store.Order.{order_by}
use chat_back.Store.Sort.{Collation, sort_by}
use chat_back.Postgres.InviteRepo.{user_with}
use chat_back.Postgres.UserRepo.{user_of_row, or_text}
use chat_back.Postgres.FriendRepo.{is_dm}

-- `CASE WHEN f.requester_id = $1 THEN f.addressee_id ELSE f.requester_id END`
abbrev pub other_side : Uuid → FriendRow → Uuid
other_side user f = if f.requester_id == user then f.addressee_id else f.requester_id

abbrev pub is_friendship_of : Uuid → FriendRow → Bool
is_friendship_of user f =
    (f.requester_id == user || f.addressee_id == user) && not (is_unanswered f.status)

-- The join with the friend.
abbrev pub entry_of : Uuid → Db → FriendRow → Option FriendEntry
entry_of user db f = elim (user_with (other_side user f) db) [
  | none ↦ none
  | some u ↦ some (record { friendship_id = f.id; user = user_of_row u })
]

unfoldable pub friends_of : Collation → Uuid → Db → List FriendEntry
unfolding user_of_row sort_by
friends_of before user db =
    sort_by (λ (a : FriendEntry) b. before a.user.username b.user.username)
      (collect (entry_of user db) (select (is_friendship_of user) db.friendships))

unfoldable pub list_friends : Collation → Uuid → Query (List FriendEntry)
unfolding friends_of
list_friends before user = read (λ db. ok (friends_of before user db))

abbrev is_request_to : Uuid → FriendRow → Bool
is_request_to user f = f.addressee_id == user && is_unanswered f.status

abbrev request_of : Db → FriendRow → Option FriendRequest
request_of db f = elim (user_with f.requester_id db) [
  | none ↦ none
  | some u ↦ some (record { friendship_id = f.id; from = user_of_row u; created_at = f.created_at })
]

unfoldable pub list_pending_received : Uuid → Query (List FriendRequest)
unfolding user_of_row order_by
list_pending_received user = read (λ db. ok (
    order_by (λ (r : FriendRequest). r.created_at)
      (collect (request_of db) (select (is_request_to user) db.friendships))))

abbrev other_of_row : UserRow → OtherUser
other_of_row u = record {
  id = u.id;
  username = u.username;
  display_name = or_text [] u.display_name;
  has_avatar = is_some u.avatar_data;
}

abbrev dm_with : Room → Db → MemberRow → Option DmRoom
dm_with r db m = elim (user_with m.user_id db) [
  | none ↦ none
  | some u ↦ some (record { id = r.id; other_user = other_of_row u; created_at = r.created_at })
]

-- The joins of one room with its other members and their users.
abbrev dm_rows : Uuid → Db → Room → List DmRoom
dm_rows user db r =
    collect (dm_with r db)
      (select (λ (m : MemberRow). m.room_id == r.id && not (m.user_id == user)) db.room_members)

abbrev all_dm_rows : Uuid → Db → List Room → List DmRoom
all_dm_rows user db [] = []
all_dm_rows user db (r ∷ rs) = dm_rows user db r ++ all_dm_rows user db rs

abbrev is_dm_with : Uuid → Db → Room → Bool
is_dm_with user db r = is_dm r.type && exists_row (is_seat r.id user) db.room_members

unfoldable pub list_dms : Uuid → Query (List DmRoom)
unfolding order_by
list_dms user = read (λ db. ok (
    order_by (λ (d : DmRoom). d.created_at)
      (all_dm_rows user db (select (is_dm_with user db) db.rooms))))
