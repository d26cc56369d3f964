-- ===== src/Ws/State.antt =====
-- The state of the hub (the `Hub` of hub.go, the `Client` of client.go) and a send on a client's
-- channel. A `*Client` is a number, and `heap` has the object that it points to. What the hub
-- asks of Redis is logged, since it looks at no answer.

pub mod Sends
use Prim.Native.String.{String}
use chat_back.Prelude.{
  ℕ, Bool, true, false, List, [], ◌∷◌, ◌++◌, Option, none, some, ltb, length, if◌then◌else◌, update,
  lookup, insert, erase, contains, add, remove, set_of,
}
use chat_back.Text.{Text}
use chat_back.Domain.{Uuid, Error}
use chat_back.Store.{World}
use chat_back.Ws.Protocol.{MessageType, ServerMessage, ServerError, ErrorText, blank}

abbrev pub ClientId : Type 0
ClientId = ℕ

abbrev pub send_buffer_size : ℕ
send_buffer_size = 256

-- `send` holds the frames that `writePump` has not taken yet.
pub record Client : Type 0 where
  pub user_id : Uuid
  pub username : Text
  pub display_name : Text
  pub avatar_url : Text
  pub rooms : List Uuid
  pub send : List ServerMessage
  pub closed : Bool

pub data Command : Type 0 where
  set_online set_offline : Uuid → Command
  subscribe unsubscribe : Uuid → Command
  publish : Uuid → ServerMessage → Command

pub record Hub : Type 0 where
  pub clients : List ClientId
  pub rooms : List (Uuid × List ClientId)
  pub voice_rooms : List (Uuid × List ClientId)
  pub heap : ClientId → Client
  pub world : World
  pub log : List Command

-- A handler runs to its end in a new state, or the goroutine panics (`none`).
infixl 5 ◌>>=◌
abbrev pub ◌>>=◌ : Option Hub → (Hub → Option Hub) → Option Hub
none >>= f = none
some h >>= f = f h

-- The clients of a room: ranging over a nil map is ranging over none.
unfoldable pub members : Uuid → Hub → List ClientId
members room h = set_of (lookup room h.rooms)

unfoldable pub voice_members : Uuid → Hub → List ClientId
voice_members room h = set_of (lookup room h.voice_rooms)

abbrev pub tell : Command → Hub → Hub
tell c h = record h { log = c ∷ h.log }

abbrev pub set_client : ClientId → Client → Hub → Hub
set_client c k h = record h { heap = update h.heap c k }

-- `select { case c.send <- data: default: }`: a full buffer drops the frame, and a send on a
-- closed channel panics.
unfoldable pub try_send : ClientId → ServerMessage → Hub → Option Hub
try_send c m h =
    let k = h.heap c in
    if k.closed
    then none
    else if ltb (length k.send) send_buffer_size
    then some (set_client c (record k { send = k.send ++ m ∷ [] }) h)
    else some h

-- The loops that send one frame to each client of a set.
unfoldable pub send_all : List ClientId → ServerMessage → Hub → Option Hub
unfolding try_send
send_all [] m h = some h
send_all (c ∷ cs) m h = try_send c m h >>= send_all cs m

abbrev pub error_message : String → ErrorText → ServerMessage
error_message code text = record (blank MessageType.error) {
  error = some (record { code = code; message = text });
}

-- `sendError`
unfoldable pub send_error : ClientId → String → ErrorText → Hub → Option Hub
unfolding try_send
send_error c code text h = try_send c (error_message code text) h
