-- ===== src/Postgres/AdminRepo.antt =====
-- The statements of admin_handler.go, which goes to the pool itself.
use chat_back.Prelude.{
  ℕ, Bool, List, Option, none, some, ◌==◌, ◌&&◌, ◌||◌, is_some, collect, if◌then◌else◌, select,
  exists_row, update_where, delete_where, count_where, map,
}
use chat_back.Text.{Text, has_nul}
use chat_back.Domain.{Uuid, Time, Room, RoomType, driver, character_not_in_repertoire}
use chat_back.Store.{
  UserRow, MemberRow, MessageRow, InviteRow, ReadRow, FriendRow, Db, Query, ok, err, call, read,
}
use chat_back.Store.Order.{order_by}
use chat_back.Store.Sort.{Collation, sort_by}
use chat_back.Postgres.RoomRepo.{remove_room}
use chat_back.Postgres.InviteRepo.{user_with}
use chat_back.Postgres.UserRepo.{with_users}
use chat_back.Postgres.FriendRepo.Listings.{other_side, is_friendship_of}

-- A room that goes with its owner.
abbrev pub is_owned : Uuid → Db → Uuid → Bool
is_owned user db room = exists_row (λ (r : Room). r.id == room && r.owner_id == user) db.rooms

-- `DELETE FROM users`: every row that refers to the user, or to a room of the user's, goes with it
-- (`ON DELETE CASCADE`).
unfoldable pub remove_user : Uuid → Db → Db
remove_user id db = record db {
  users = delete_where (λ (u : UserRow). u.id == id) db.users;
  rooms = delete_where (λ (r : Room). r.owner_id == id) db.rooms;
  room_members =
      delete_where (λ (m : MemberRow). m.user_id == id || is_owned id db m.room_id) db.room_members;
  messages =
      delete_where (λ (m : MessageRow). m.user_id == id || is_owned id db m.room_id) db.messages;
  room_invites =
      delete_where
        (λ (i : InviteRow). i.inviter_id == id || i.invitee_id == id || is_owned id db i.room_id)
        db.room_invites;
  room_reads =
      delete_where (λ (r : ReadRow). r.user_id == id || is_owned id db r.room_id) db.room_reads;
  friendships =
      delete_where (λ (f : FriendRow). f.requester_id == id || f.addressee_id == id) db.friendships;
}

unfoldable pub delete_user : Uuid → Query (Unit {0})
unfolding remove_user
delete_user id = call (λ db. (ok tt, remove_user id db))

unfoldable pub delete_room : Uuid → Query (Unit {0})
unfolding remove_room
delete_room id = call (λ db. (ok tt, remove_room id db))

unfoldable pub rename_room : Uuid → Text → Query (Unit {0})
unfolding has_nul
rename_room id name = call (λ db.
    if has_nul name then (err (driver character_not_in_repertoire), db) else (
      ok tt,
      record db {
        rooms = update_where (λ (r : Room). r.id == id) (λ r. record r { name = name }) db.rooms;
      },
    ))

unfoldable pub set_admin : Uuid → Bool → Query (Unit {0})
set_admin id is_admin = call (λ db. (
  ok tt,
  with_users
      (update_where (λ (u : UserRow). u.id == id) (λ u. record u { is_admin = is_admin }) db.users)
      db,
))

pub record UserLine : Type 0 where
  pub id : Uuid
  pub username : Text
  pub email : Text
  pub tag : Text
  pub display_name : Option Text
  pub is_admin : Bool
  pub created_at : Time

abbrev user_line : UserRow → UserLine
user_line u = record {
  id = u.id;
  username = u.username;
  email = u.email;
  tag = u.tag;
  display_name = u.display_name;
  is_admin = u.is_admin;
  created_at = u.created_at;
}

unfoldable pub list_users : Query (List UserLine)
unfolding order_by
list_users = read (λ db. ok (map user_line (order_by (λ (u : UserRow). u.created_at) db.users)))

pub record RoomLine : Type 0 where
  pub id : Uuid
  pub name : Text
  pub type : RoomType
  pub owner_id : Uuid
  pub owner_username : Text
  pub created_at : Time
  pub member_count : ℕ

abbrev room_line : Db → Room → Option RoomLine
room_line db r = elim (user_with r.owner_id db) [
  | none ↦ none
  | some u ↦ some (record {
    id = r.id;
    name = r.name;
    type = r.type;
    owner_id = r.owner_id;
    owner_username = u.username;
    created_at = r.created_at;
    member_count = count_where (λ (m : MemberRow). m.room_id == r.id) db.room_members;
  })
]

unfoldable pub list_rooms : Query (List RoomLine)
unfolding order_by
list_rooms =
    read (λ db. ok (order_by (λ (r : RoomLine). r.created_at) (collect (room_line db) db.rooms)))

pub record FriendLine : Type 0 where
  pub friendship_id : Uuid
  pub user_id : Uuid
  pub username : Text
  pub tag : Text
  pub email : Text
  pub has_avatar : Bool
  pub since : Time

abbrev friend_line : Uuid → Db → FriendRow → Option FriendLine
friend_line user db f = elim (user_with (other_side user f) db) [
  | none ↦ none
  | some u ↦ some (record {
    friendship_id = f.id;
    user_id = other_side user f;
    username = u.username;
    tag = u.tag;
    email = u.email;
    has_avatar = is_some u.avatar_data;
    since = f.created_at;
  })
]

unfoldable pub list_user_friends : Collation → Uuid → Query (List FriendLine)
unfolding sort_by
list_user_friends before user = read (λ db. ok (
    sort_by (λ (a : FriendLine) b. before a.username b.username)
      (collect (friend_line user db) (select (is_friendship_of user) db.friendships))))
