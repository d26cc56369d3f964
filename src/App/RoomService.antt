-- ===== src/App/RoomService.antt =====
-- internal/app/room_service.go. What `uuid.New()` and `time.Now()` return are arguments.
pub mod Kick
pub mod Rooms
pub mod Roles
pub mod Invites
use chat_back.Prelude.{
  ℕ, Bool, true, false, not, List, [], Option, none, some, ◌==◌, ◌&&◌, ◌||◌, if◌then◌else◌,
}
use chat_back.Text.{Text, trim_space, is_empty}
use chat_back.Domain.{
  Uuid, Time, Error, not_found, forbidden, bad_request, Room, RoomType, is_private, MemberRole,
  owner, admin, member, other_role, is_owner, is_plain, RoomInvite, Member, pending,
}
use chat_back.Store.{
  Query, Result, ok, err, ◌>>=◌, ◌>>◌, return, throw, fail_if, unless, replace_err, ignore,
}
use chat_back.Store.Sort.{Collation}
use chat_back.Postgres.RoomRepo
use chat_back.Postgres.RoomRepo.Members
use chat_back.Postgres.InviteRepo

unfoldable pub create : Uuid → Text → RoomType → Uuid → Query Room
unfolding RoomRepo.create RoomRepo.add_member
create new_id name room_type owner_id = do
  let trimmed = trim_space name
  fail_if (is_empty trimmed) bad_request
  let room : Room = record {
    id = new_id;
    name = trimmed;
    type = room_type;
    owner_id = owner_id;
    created_at = 0;
  }
  RoomRepo.create room
  ignore (RoomRepo.add_member new_id owner_id owner)
  return room

unfoldable pub get_room : Uuid → Query Room
unfolding RoomRepo.get_by_id
get_room id = RoomRepo.get_by_id id

unfoldable pub is_member : Uuid → Uuid → Query Bool
unfolding RoomRepo.is_member
is_member room user = RoomRepo.is_member room user

unfoldable pub add_member : Uuid → Uuid → MemberRole → Query (Unit {0})
unfolding RoomRepo.add_member
add_member room user role = RoomRepo.add_member room user role

unfoldable pub delete : Uuid → Uuid → Bool → Query (Unit {0})
unfolding RoomRepo.delete RoomRepo.delete_any
delete id requester is_admin w =
    if is_admin then RoomRepo.delete_any id w else RoomRepo.delete id requester w

abbrev pub new_invite : Uuid → Time → Uuid → Uuid → Uuid → RoomInvite
new_invite new_id now room_id inviter invitee = record {
  id = new_id;
  room_id = room_id;
  inviter_id = inviter;
  invitee_id = invitee;
  status = pending;
  created_at = now;
  room_name = [];
  inviter_username = [];
  invitee_username = [];
}

unfoldable pub invite_user : Uuid → Time → Uuid → Uuid → Uuid → Query RoomInvite
unfolding RoomRepo.get_by_id RoomRepo.is_member InviteRepo.create
invite_user new_id now room_id inviter invitee = do
  room ← RoomRepo.get_by_id room_id
  fail_if (not (is_private room.type)) bad_request
  unless (room.owner_id == inviter)
      (RoomRepo.is_member room_id inviter >>= λ joined. fail_if (not joined) forbidden)
  let invite = new_invite new_id now room_id inviter invitee
  InviteRepo.create invite
  return invite

unfoldable pub accept_invite : Uuid → Uuid → Query (Unit {0})
unfolding InviteRepo.get_by_id InviteRepo.accept RoomRepo.add_member
accept_invite invite_id user = do
  invite ← InviteRepo.get_by_id invite_id
  fail_if (not (invite.invitee_id == user)) forbidden
  InviteRepo.accept invite_id
  RoomRepo.add_member invite.room_id user member

unfoldable pub decline_invite : Uuid → Uuid → Query (Unit {0})
unfolding InviteRepo.get_by_id InviteRepo.decline
decline_invite invite_id user = do
  invite ← InviteRepo.get_by_id invite_id
  fail_if (not (invite.invitee_id == user)) forbidden
  InviteRepo.decline invite_id

unfoldable pub list_room_invites : Uuid → Uuid → Query (List RoomInvite)
unfolding RoomRepo.get_by_id InviteRepo.list_for_room
list_room_invites room_id requester = do
  room ← RoomRepo.get_by_id room_id
  fail_if (not (room.owner_id == requester)) forbidden
  InviteRepo.list_for_room room_id

unfoldable pub set_role : Uuid → Uuid → Uuid → MemberRole → Query (Unit {0})
unfolding RoomRepo.get_member_role RoomRepo.get_by_id RoomRepo.set_member_role
set_role room_id requester target role = do
  fail_if (is_owner role) forbidden
  requester_role ← replace_err forbidden (RoomRepo.get_member_role room_id requester)
  room ← RoomRepo.get_by_id room_id
  fail_if (not (is_owner requester_role) && not (room.owner_id == requester)) forbidden
  RoomRepo.set_member_role room_id target role

-- The `switch` on the requester's role: the owner kicks anyone, an admin plain members.
abbrev pub may_kick : MemberRole → MemberRole → Bool
may_kick owner target = true
may_kick admin target = is_plain target
may_kick _ target = false

unfoldable pub kick_member : Uuid → Uuid → Uuid → Query (Unit {0})
unfolding RoomRepo.get_member_role RoomRepo.remove_member
kick_member room_id requester target = do
  fail_if (requester == target) bad_request
  requester_role ← replace_err forbidden (RoomRepo.get_member_role room_id requester)
  target_role ← replace_err not_found (RoomRepo.get_member_role room_id target)
  fail_if (not (may_kick requester_role target_role)) forbidden
  RoomRepo.remove_member room_id target

unfoldable pub rename : Uuid → Uuid → Text → Bool → Query Room
unfolding RoomRepo.get_by_id RoomRepo.rename
rename room_id requester name is_admin = do
  let trimmed = trim_space name
  fail_if (is_empty trimmed) bad_request
  room ← RoomRepo.get_by_id room_id
  fail_if (not is_admin && not (room.owner_id == requester)) forbidden
  RoomRepo.rename room_id trimmed
  return (record room { name = trimmed })

unfoldable pub list : Uuid → Query (List Room)
unfolding RoomRepo.list_for_user
list user = RoomRepo.list_for_user user

unfoldable pub list_all : Query (List Room)
unfolding RoomRepo.list_all
list_all = RoomRepo.list_all

unfoldable pub get_member_role : Uuid → Uuid → Query MemberRole
unfolding RoomRepo.get_member_role
get_member_role room user = RoomRepo.get_member_role room user

unfoldable pub list_my_invites : Uuid → Query (List RoomInvite)
unfolding InviteRepo.list_pending
list_my_invites user = InviteRepo.list_pending user

unfoldable pub get_unread_counts : Uuid → Query (List (Uuid × ℕ))
unfolding RoomRepo.get_unread_counts
get_unread_counts user = RoomRepo.get_unread_counts user

unfoldable pub mark_room_read : Time → Uuid → Uuid → Query (Unit {0})
unfolding RoomRepo.mark_room_read
mark_room_read now user room = RoomRepo.mark_room_read now user room

unfoldable pub get_members : Collation → Uuid → Query (List Member)
unfolding Members.get_members
get_members before room = Members.get_members before room
