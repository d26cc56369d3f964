-- ===== src/Domain.antt =====
-- internal/domain: the types that the layers share. A UUID is a number of 128 bits, `uuid.Nil` is
-- 0; a `time.Time` is the number of nanoseconds since Go's zero time.
use chat_back.Prelude.{ℕ, Bool, true, false, Option, none, some, ltb, if◌then◌else◌}
use chat_back.Text.{Text, is_empty, byte_len, trim_space}

abbrev pub Uuid : Type 0
Uuid = ℕ

abbrev pub uuid_nil : Uuid
uuid_nil = 0

abbrev pub Time : Type 0
Time = ℕ

-- What a constraint of the schema refuses, by its name in PostgreSQL.
pub data Constraint : Type 0 where
  rooms_pkey messages_pkey users_pkey users_username_key users_email_key users_tag_unique :
      Constraint
  room_invites_pkey room_invites_room_id_invitee_id_key : Constraint
  friendships_pkey room_members_pkey : Constraint

-- Errors of the driver, which the program passes on as they are.
pub data DriverError : Type 0 where
  unavailable no_rows foreign_key_violation check_violation : DriverError
  -- SQLSTATE 22021: the text has U+0000.
  character_not_in_repertoire : DriverError
  unique_violation : Constraint → DriverError

-- internal/domain/errors.go, and the driver's errors.
pub data Error : Type 0 where
  not_found forbidden room_full bad_request : Error
  -- What `fmt.Errorf` makes in `generateUniqueTag`.
  no_unique_tag : Error
  driver : DriverError → Error

-- A `RoomType` is a string: one of the constants, or any other text.
pub data RoomType : Type 0 where
  public private dm voice : RoomType
  other : Text → RoomType

abbrev pub is_private : RoomType → Bool
is_private private = true
is_private _ = false

pub record Room : Type 0 where
  pub id : Uuid
  pub name : Text
  pub type : RoomType
  pub owner_id : Uuid
  pub created_at : Time

pub data MemberRole : Type 0 where
  owner admin member : MemberRole
  other_role : Text → MemberRole

abbrev pub is_owner : MemberRole → Bool
is_owner owner = true
is_owner _ = false

abbrev pub is_admin_role : MemberRole → Bool
is_admin_role admin = true
is_admin_role _ = false

abbrev pub is_plain : MemberRole → Bool
is_plain member = true
is_plain _ = false

pub record Member : Type 0 where
  pub user_id : Uuid
  pub username : Text
  pub role : Option MemberRole

pub data InviteStatus : Type 0 where
  pending accepted declined : InviteStatus

abbrev pub is_pending : InviteStatus → Bool
is_pending pending = true
is_pending _ = false

pub record RoomInvite : Type 0 where
  pub id : Uuid
  pub room_id : Uuid
  pub inviter_id : Uuid
  pub invitee_id : Uuid
  pub status : InviteStatus
  pub created_at : Time
  pub room_name : Text
  pub inviter_username : Text
  pub invitee_username : Text

abbrev pub max_message_length : ℕ
max_message_length = 4000

pub record Message : Type 0 where
  pub id : Uuid
  pub room_id : Uuid
  pub user_id : Uuid
  pub username : Text
  pub display_name : Text
  pub avatar_url : Text
  pub content : Text
  pub created_at : Time
  pub edited_at : Option Time

-- `Message.Validate`; `none` is the nil error.
unfoldable pub validate : Message → Option Error
validate m =
    let content = trim_space m.content in
    if is_empty content
    then some bad_request
    else if ltb max_message_length (byte_len content)
    then some bad_request
    else none

-- `friendships.status`
pub data FriendStatus : Type 0 where
  pending accepted : FriendStatus

abbrev pub is_unanswered : FriendStatus → Bool
is_unanswered FriendStatus.pending = true
is_unanswered FriendStatus.accepted = false

pub record User : Type 0 where
  pub id : Uuid
  pub username : Text
  pub tag : Text
  pub display_name : Text
  pub email : Text
  pub has_avatar : Bool
  pub created_at : Time
  pub updated_at : Time

pub record FriendEntry : Type 0 where
  pub friendship_id : Uuid
  pub user : User

pub record FriendRequest : Type 0 where
  pub friendship_id : Uuid
  pub from : User
  pub created_at : Time

-- The user of a DM, of whom fewer columns are read.
pub record OtherUser : Type 0 where
  pub id : Uuid
  pub username : Text
  pub display_name : Text
  pub has_avatar : Bool

pub record DmRoom : Type 0 where
  pub id : Uuid
  pub other_user : OtherUser
  pub created_at : Time
