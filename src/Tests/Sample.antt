-- ===== src/Tests/Sample.antt =====
-- A small database: four users, a public room, a private room and a DM.
use chat_back.Prelude.{false, List, [], ◌∷◌, none}
use chat_back.Domain.{
  Uuid, Room, RoomType, public, private, dm, MemberRole, owner, admin, member, pending,
  FriendStatus,
}
use chat_back.Store.{UserRow, MemberRow, MessageRow, InviteRow, Db, World, online}

abbrev pub alice : Uuid
alice = 1

abbrev pub bob : Uuid
bob = 2

abbrev pub carol : Uuid
carol = 3

abbrev pub dave : Uuid
dave = 4

-- The public room and the private one.
abbrev pub hall : Uuid
hall = 10

abbrev pub den : Uuid
den = 11

abbrev pub user_row : Uuid → UserRow
user_row n = record {
  id = n;
  username = 97 ∷ n ∷ [];
  email = [];
  password = [];
  tag = [];
  display_name = none;
  avatar_data = none;
  avatar_mime = none;
  is_admin = false;
  created_at = 5;
  updated_at = 5;
}

abbrev pub room_row : Uuid → RoomType → Room
room_row n t = record { id = n; name = 114 ∷ []; type = t; owner_id = 1; created_at = n }

abbrev pub seat : Uuid → Uuid → MemberRole → MemberRow
seat room user role = record { room_id = room; user_id = user; role = role }

abbrev pub message_row : Uuid → Uuid → Uuid → MessageRow
message_row n room user = record {
  id = n;
  room_id = room;
  user_id = user;
  username = 97 ∷ user ∷ [];
  content = 104 ∷ 105 ∷ [];
  created_at = n;
  edited_at = none;
}

abbrev pub invite_row : InviteRow
invite_row = record {
  id = 50;
  room_id = 11;
  inviter_id = 1;
  invitee_id = 4;
  status = pending;
  created_at = 9;
}

abbrev pub messages : List MessageRow
messages = message_row 100 11 3 ∷ message_row 101 11 2 ∷ message_row 102 10 1 ∷ []

-- Room 11 has an owner, an admin and a member; the public room 10 has its owner.
abbrev pub book : Db
book = record {
  users = user_row 1 ∷ user_row 2 ∷ user_row 3 ∷ user_row 4 ∷ [];
  rooms = room_row 10 public ∷ room_row 11 private ∷ room_row 12 dm ∷ [];
  room_members =
      seat 11 1 owner
      ∷ seat 11 2 admin
      ∷ seat 11 3 member
      ∷ seat 10 1 owner
      ∷ seat 12 1 member
      ∷ [];
  messages = messages;
  room_invites = invite_row ∷ [];
  room_reads = [];
  friendships =
      record {
        id = 70;
        requester_id = alice;
        addressee_id = bob;
        status = FriendStatus.pending;
        created_at = 3;
        updated_at = 3;
      }
      ∷ [];
}

abbrev pub world : World
world = online book
