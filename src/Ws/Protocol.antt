-- ===== src/Ws/Protocol.antt =====
-- internal/adapter/inbound/ws/protocol.go. The string constants of a message's type are
-- constructors; any other string is `unknown`. A frame is kept as the `ServerMessage` that it
-- encodes: what `encoding/json` makes of it is not modelled.
use Prim.Native.String.{String}
use chat_back.Prelude.{ℕ, Bool, List, [], Option, none}
use chat_back.Text.{Text}
use chat_back.Domain.{Uuid, Time, Member, Error, uuid_nil}

pub data MessageType : Type 0 where
  join_room leave_room chat_message typing presence room_joined error : MessageType
  message_edited message_deleted room_renamed : MessageType
  voice_join voice_leave voice_offer voice_answer ice_candidate voice_joined voice_left :
      MessageType
  voice_participants : MessageType
  unknown : Text → MessageType

pub record ClientMessage : Type 0 where
  pub type : MessageType
  pub room_id : Uuid
  pub content : Text
  pub is_typing : Option Bool
  pub target_user_id : Uuid
  pub sdp : Text
  pub sdp_type : Text
  pub candidate : Text
  pub sdp_mid : Text
  pub sdp_m_line_index : Option ℕ

-- The message of an error frame: a literal, or the `Error()` of a Go error.
pub data ErrorText : Type 0 where
  literal : String → ErrorText
  rendered : Error → ErrorText

pub record ServerError : Type 0 where
  pub code : String
  pub message : ErrorText

pub data Status : Type 0 where
  no_status offline : Status

pub record ServerMessage : Type 0 where
  pub type : MessageType
  pub room_id : Uuid
  pub message_id : Uuid
  pub user_id : Uuid
  pub username : Text
  pub display_name : Text
  pub avatar_url : Text
  pub content : Text
  pub timestamp : Time
  pub edited_at : Option Time
  pub name : Text
  pub status : Status
  pub members : List Member
  pub error : Option ServerError
  pub sdp : Text
  pub sdp_type : Text
  pub candidate : Text
  pub sdp_mid : Text
  pub sdp_m_line_index : Option ℕ
  pub participants : List Uuid

-- A composite literal `ServerMessage{Type: …}`: the other fields have their zero values.
abbrev pub blank : MessageType → ServerMessage
blank t = record {
  type = t;
  room_id = uuid_nil;
  message_id = uuid_nil;
  user_id = uuid_nil;
  username = [];
  display_name = [];
  avatar_url = [];
  content = [];
  timestamp = 0;
  edited_at = none;
  name = [];
  status = no_status;
  members = [];
  error = none;
  sdp = [];
  sdp_type = [];
  candidate = [];
  sdp_mid = [];
  sdp_m_line_index = none;
  participants = [];
}
