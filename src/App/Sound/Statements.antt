-- ===== src/App/Sound/Statements.antt =====
-- The statements of the repositories.
use chat_back.Prelude.{ℕ, ◌≤◌, ◌≡◌, ◌≢◌, ◌==◌, Bool, false, List, some, arith, length, inr}
use chat_back.Text.{Text, is_empty}
use chat_back.Domain.{Uuid, Time, Room, MemberRole, Message, FriendStatus}
use chat_back.Store.{Db, call, UserRow, MessageRow, timestamptz}
use chat_back.Store.Integrity.{All-delete}
use chat_back.Postgres.RoomRepo
use chat_back.Postgres.RoomRepo.{insert_room, upsert_member, remove_room}
use chat_back.Postgres.MessageRepo
use chat_back.Postgres.MessageRepo.{insert_message}
use chat_back.Postgres.FriendRepo
use chat_back.Postgres.FriendRepo.{insert_friendship, insert_seats, is_open_request}
use chat_back.Postgres.UserRepo
use chat_back.Postgres.UserRepo.{insert_user}
use chat_back.Postgres.AdminRepo
use chat_back.Postgres.AdminRepo.{remove_user}
use chat_back.App.Sound.{
  IsNamed, IsApart, IsWritten, IsBrief, IsSound, All-update, Keeps, call-Keeps,
}

pub insert_room-Keeps : (r : Room) → IsNamed r → Keeps (call (insert_room r))
unfolding insert_room
insert_room-Keeps r h = call-Keeps (insert_room r) (λ db s. ground arith)

pub upsert_member-Keeps :
    (room user : Uuid) (role : MemberRole) → Keeps (call (upsert_member room user role))
unfolding upsert_member
upsert_member-Keeps room user role =
    call-Keeps (upsert_member room user role) (λ db s. ground arith)

remove_room-IsSound : (id : Uuid) (db : Db) → IsSound db → IsSound (remove_room id db)
unfolding remove_room
remove_room-IsSound id db (rooms, friends, messages, users) = (
  All-delete _ _ _ db.rooms (λ r h _. h) rooms,
  friends,
  All-delete _ _ _ db.messages (λ m h _. h) messages,
  users,
)

pub delete-Keeps : (id owner : Uuid) → Keeps (RoomRepo.delete id owner)
unfolding RoomRepo.delete
delete-Keeps id owner = call-Keeps _ (λ db s. ground (arith, remove_room-IsSound id db s))

pub delete_any-Keeps : (id : Uuid) → Keeps (RoomRepo.delete_any id)
unfolding RoomRepo.delete_any
delete_any-Keeps id = call-Keeps _ (λ db s. remove_room-IsSound id db s)

pub rename-Keeps :
    (id : Uuid) (name : Text) → is_empty name ≡ false → Keeps (RoomRepo.rename id name)
unfolding RoomRepo.rename
rename-Keeps id name h = call-Keeps _ (λ db s. ground (
  arith,
  All-update IsNamed (λ (r : Room). r.id == id) (λ r. record r { name = name }) db.rooms
      (λ r _. inr h) s.0,
))

pub mark_room_read-Keeps :
    (now : Time) (user room : Uuid) → Keeps (RoomRepo.mark_room_read now user room)
unfolding RoomRepo.mark_room_read
mark_room_read-Keeps now user room = call-Keeps _ (λ db s. ground arith)

pub insert_message-Keeps :
    (m : Message) → is_empty m.content ≡ false → Keeps (call (insert_message m))
unfolding insert_message
insert_message-Keeps m h = call-Keeps _ (λ db s. ground arith)

pub update_content-Keeps :
    (id : Uuid) (content : Text) (now : Time)
    → is_empty content ≡ false
    → Keeps (MessageRepo.update_content id content now)
unfolding MessageRepo.update_content
update_content-Keeps id content now h = call-Keeps _ (λ db s. ground (
  arith,
  All-update IsWritten (λ (m : MessageRow). m.id == id)
      (λ m. record m { content = content; edited_at = some (timestamptz now) }) db.messages
      (λ m _. h) s.2,
))

pub delete_message-Keeps : (id : Uuid) → Keeps (MessageRepo.delete id)
unfolding MessageRepo.delete
delete_message-Keeps id = call-Keeps _ (λ db s. ground (
  arith,
  All-delete IsWritten IsWritten (λ (m : MessageRow). m.id == id) db.messages (λ m w _. w) s.2,
))

pub insert_friendship-Keeps :
    (new_id : Uuid) (now : Time) (a b : Uuid)
    → a ≢ b
    → Keeps (FriendRepo.send_request new_id now a b)
unfolding FriendRepo.send_request insert_friendship
insert_friendship-Keeps new_id now a b h = call-Keeps _ (λ db s. ground arith)

pub accept_friend-Keeps : (now : Time) (id user : Uuid) → Keeps (FriendRepo.accept now id user)
unfolding FriendRepo.accept
accept_friend-Keeps now id user = call-Keeps _ (λ db s. ground (
  arith,
  All-update IsApart (is_open_request id user)
      (λ r. record r { status = FriendStatus.accepted; updated_at = now }) db.friendships (λ f h. h)
      s.1,
))

pub remove_friend-Keeps : (id user : Uuid) → Keeps (FriendRepo.remove id user)
unfolding FriendRepo.remove
remove_friend-Keeps id user = call-Keeps _ (λ db (rooms, friends, messages, users).
    (rooms, All-delete _ _ _ db.friendships (λ f h _. h) friends, messages, users))

pub insert_seats-Keeps : (room a b : Uuid) → Keeps (call (insert_seats room a b))
unfolding insert_seats
insert_seats-Keeps room a b = call-Keeps _ (λ db s. ground arith)

pub insert_user-Keeps : (u : UserRow) → IsBrief u.display_name → Keeps (call (insert_user u))
unfolding insert_user
insert_user-Keeps u h = call-Keeps _ (λ db s. ground arith)

pub update_profile-Keeps :
    (now : Time) (id : Uuid) (name : Text)
    → length name ≤ 32
    → Keeps (UserRepo.update_profile now id name)
unfolding UserRepo.update_profile
update_profile-Keeps now id name h = call-Keeps _ (λ db s. ground (
  arith,
  All-update (λ (u : UserRow). IsBrief u.display_name) (λ (u : UserRow). u.id == id)
      (λ u. record u { display_name = some name; updated_at = now }) db.users (λ u _. h) s.3,
))

pub save_avatar-Keeps :
    (now : Time) (id : Uuid) (image : List ℕ) (mime : Text)
    → Keeps (UserRepo.save_avatar now id image mime)
unfolding UserRepo.save_avatar
save_avatar-Keeps now id image mime = call-Keeps _ (λ db (rooms, friends, messages, users).
    (rooms, friends, messages, All-update _ _ _ db.users (λ u b. b) users))

pub delete_user-Keeps : (id : Uuid) → Keeps (AdminRepo.delete_user id)
unfolding AdminRepo.delete_user remove_user
delete_user-Keeps id = call-Keeps _ (λ db (rooms, friends, messages, users). (
  All-delete _ _ _ db.rooms (λ r h _. h) rooms,
  All-delete _ _ _ db.friendships (λ f h _. h) friends,
  All-delete _ _ _ db.messages (λ m h _. h) messages,
  All-delete _ _ _ db.users (λ u h _. h) users,
))

pub delete_room-Keeps : (id : Uuid) → Keeps (AdminRepo.delete_room id)
unfolding AdminRepo.delete_room
delete_room-Keeps id = call-Keeps _ (λ db s. remove_room-IsSound id db s)

pub rename_any-Keeps :
    (id : Uuid) (name : Text) → is_empty name ≡ false → Keeps (AdminRepo.rename_room id name)
unfolding AdminRepo.rename_room
rename_any-Keeps id name h = call-Keeps _ (λ db s. ground (
  arith,
  All-update IsNamed (λ (r : Room). r.id == id) (λ r. record r { name = name }) db.rooms
      (λ r _. inr h) s.0,
))

pub set_admin-Keeps : (id : Uuid) (b : Bool) → Keeps (AdminRepo.set_admin id b)
unfolding AdminRepo.set_admin
set_admin-Keeps id b = call-Keeps _ (λ db (rooms, friends, messages, users).
    (rooms, friends, messages, All-update _ _ _ db.users (λ u h. h) users))
