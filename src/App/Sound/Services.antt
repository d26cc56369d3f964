-- ===== src/App/Sound/Services.antt =====
-- The operations of the services that change the tables.
use chat_back.Prelude.{
  ◌≡◌, ◌==◌, Bool, true, false, [], ◌∷◌, none, arith, refl, inl, inr, Bool-cases,
}
use chat_back.Text.{Text, is_empty, trim_space}
use chat_back.Domain.{Uuid, Time, Room, RoomType, MemberRole, Message, owner, validate}
use chat_back.Store.{call, return, ◌>>◌}
use chat_back.Postgres.RoomRepo
use chat_back.Postgres.InviteRepo
use chat_back.Postgres.MessageRepo
use chat_back.Postgres.FriendRepo
use chat_back.App.RoomService
use chat_back.App.MessageService
use chat_back.App.FriendService
use chat_back.App.Sound.{Keeps, call-Keeps, return-Keeps, in_transaction-Keeps, then-Keeps}
use chat_back.App.Sound.Statements
use chat_back.App.Sound.Statements.{
  insert_room-Keeps, upsert_member-Keeps, delete-Keeps, delete_any-Keeps, insert_message-Keeps,
  update_content-Keeps, insert_friendship-Keeps, insert_seats-Keeps,
}

pub create-Keeps :
    (new_id : Uuid) (name : Text) (type : RoomType) (user : Uuid)
    → Keeps (RoomService.create new_id name type user)
unfolding RoomService.create RoomRepo.create RoomRepo.add_member
create-Keeps new_id name type user w s = elim (Bool-cases (is_empty (trim_space name))) [
  | inl blank ↦ ground arith
  | inr named ↦
      let room : Room = record {
        id = new_id;
        name = trim_space name;
        type = type;
        owner_id = user;
        created_at = 0;
      } in
      let w' = (call (RoomRepo.insert_room room) w).1 in
      let s' = insert_room-Keeps room (inr named) w s in
      ground (arith, s', upsert_member-Keeps new_id user owner w' s')
]

pub delete_room-Keeps :
    (id user : Uuid) (is_admin : Bool) → Keeps (RoomService.delete id user is_admin)
unfolding RoomService.delete
delete_room-Keeps id user true = delete_any-Keeps id
delete_room-Keeps id user false = delete-Keeps id user

pub rename-Keeps :
    (id user : Uuid) (name : Text) (is_admin : Bool)
    → Keeps (RoomService.rename id user name is_admin)
unfolding RoomService.rename RoomRepo.get_by_id
rename-Keeps id user name is_admin w s = elim (Bool-cases (is_empty (trim_space name))) [
  | inl blank ↦ ground arith
  | inr named ↦
      let w' = (RoomRepo.get_by_id id w).1 in
      ground (arith, Statements.rename-Keeps id (trim_space name) named w' (ground arith))
]

pub invite_user-Keeps :
    (new_id : Uuid) (now : Time) (room inviter invitee : Uuid)
    → Keeps (RoomService.invite_user new_id now room inviter invitee)
unfolding RoomService.invite_user RoomRepo.get_by_id RoomRepo.is_member InviteRepo.create
    InviteRepo.insert_invite
invite_user-Keeps new_id now room inviter invitee w s = ground arith

pub accept_invite-Keeps : (id user : Uuid) → Keeps (RoomService.accept_invite id user)
unfolding RoomService.accept_invite InviteRepo.get_by_id InviteRepo.accept RoomRepo.add_member
    RoomRepo.upsert_member InviteRepo.close_invite
accept_invite-Keeps id user w s = ground arith

pub decline_invite-Keeps : (id user : Uuid) → Keeps (RoomService.decline_invite id user)
unfolding RoomService.decline_invite InviteRepo.get_by_id InviteRepo.decline InviteRepo.close_invite
decline_invite-Keeps id user w s = ground arith

pub set_role-Keeps :
    (room user target : Uuid) (role : MemberRole)
    → Keeps (RoomService.set_role room user target role)
unfolding RoomService.set_role RoomRepo.get_by_id RoomRepo.get_member_role RoomRepo.set_member_role
set_role-Keeps room user target role w s = ground arith

pub kick_member-Keeps : (room user target : Uuid) → Keeps (RoomService.kick_member room user target)
unfolding RoomService.kick_member RoomRepo.get_member_role RoomRepo.remove_member
kick_member-Keeps room user target w s = ground arith

pub edit-Keeps :
    (now : Time) (id user : Uuid) (content : Text) → Keeps (MessageService.edit now id user content)
unfolding MessageService.edit MessageRepo.get_by_id
edit-Keeps now id user content w s = elim (Bool-cases (is_empty (trim_space content))) [
  | inl blank ↦ ground arith
  | inr written ↦
      let w' = (MessageRepo.get_by_id id w).1 in
      ground (arith, update_content-Keeps id (trim_space content) now written w' (ground arith))
]

pub send_request-Keeps :
    (new_id : Uuid) (now : Time) (a b : Uuid) → Keeps (FriendService.send_request new_id now a b)
unfolding FriendService.send_request
send_request-Keeps new_id now a b w s = elim (Bool-cases (a == b)) [
  | inl self ↦ ground arith
  | inr apart ↦ ground (arith, insert_friendship-Keeps new_id now a b (λ e. ground (arith, e)) w s)
]

dm_statements-Keeps :
    (new_id : Uuid) (now : Time) (a b : Uuid) → Keeps (FriendRepo.dm_statements new_id now a b)
dm_statements-Keeps new_id now a b =
    let room = FriendRepo.new_dm new_id a now in
    let begin = FriendRepo.reaches in
    let rows = call (RoomRepo.insert_room room) in
    let seats = call (FriendRepo.insert_seats new_id a b) in
    let reached : Keeps begin = call-Keeps _ (λ db s. s) in
    then-Keeps (begin >> rows >> seats >> begin) (return (FriendRepo.new_dm new_id a 0))
      (then-Keeps (begin >> rows >> seats) begin
        (then-Keeps (begin >> rows) seats
          (then-Keeps begin rows reached (insert_room-Keeps room (inl refl)))
          (insert_seats-Keeps new_id a b))
        reached)
      (return-Keeps (FriendRepo.new_dm new_id a 0))

pub get_or_create_dm-Keeps :
    (new_id : Uuid) (now : Time) (a b : Uuid)
    → Keeps (FriendService.get_or_create_dm new_id now a b)
unfolding FriendService.get_or_create_dm FriendRepo.get_or_create_dm FriendRepo.create_dm
    FriendRepo.find_dm
get_or_create_dm-Keeps new_id now a b w s =
    let w' = (FriendRepo.find_dm a b w).1 in
    ground (
      arith,
      in_transaction-Keeps (FriendRepo.dm_statements new_id now a b)
          (dm_statements-Keeps new_id now a b) w' (ground arith),
    )

trim_space_written : (t : Text) → is_empty (trim_space t) ≡ false → is_empty t ≡ false
unfolding trim_space
trim_space_written [] h = ground arith
trim_space_written (c ∷ t) h = refl

-- The hub's way to a new message.
pub send_message-Keeps :
    (new_id : Uuid) (now : Time) (user : Uuid) (username : Text) (room : Uuid) (content : Text)
    → Keeps (MessageService.send_message new_id now user username room content)
unfolding MessageService.send_message MessageService.save MessageRepo.save validate
send_message-Keeps new_id now user username room content w s =
    elim (Bool-cases (is_empty (trim_space content))) [
      | inl blank ↦ ground arith
      | inr written ↦
          let msg : Message = record {
            id = new_id;
            room_id = room;
            user_id = user;
            username = username;
            display_name = [];
            avatar_url = [];
            content = content;
            created_at = now;
            edited_at = none;
          } in
          ground (arith, insert_message-Keeps msg (trim_space_written content written) w s)
    ]
