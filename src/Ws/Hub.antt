-- ===== src/Ws/Hub.antt =====
-- hub.go: `NewHub`, the loop of `Run` and what it dispatches to. The loop takes one event at a
-- time from its channels; `step` is one round of it.
pub mod WellFormed
pub mod Handlers
pub mod Leaving
pub mod Unregister
pub mod Reach
pub mod Late
pub mod Access
use chat_back.Prelude.{
  ℕ, Bool, true, false, not, List, [], ◌∷◌, ◌++◌, Option, none, some, ◌==◌, if◌then◌else◌, lookup,
  contains, add, remove, keys, map, update,
}
use chat_back.Text.{Text}
use chat_back.Domain.{Uuid, Time}
use chat_back.Store.{World}
use chat_back.Ws.Protocol.{MessageType, ClientMessage, ServerMessage, Status, offline, blank}
use chat_back.Ws.State.{
  ClientId, Client, Hub, Command, set_online, set_offline, ◌>>=◌, members, voice_members, tell,
  set_client, send_all,
}
use chat_back.Ws.Rooms.{join_room, leave_room, handle_chat, handle_typing, deliver_local}
use chat_back.Ws.Voice.{handle_voice_join, handle_voice_leave, relay_voice_signal}

-- What stands at a pointer that no client has yet.
abbrev pub no_client : Client
no_client = record {
  user_id = 0;
  username = [];
  display_name = [];
  avatar_url = [];
  rooms = [];
  send = [];
  closed = false;
}

unfoldable pub new_hub : World → Hub
new_hub w = record {
  clients = [];
  rooms = [];
  voice_rooms = [];
  heap = λ _. no_client;
  world = w;
  log = [];
}

-- `NewClient`, at a pointer of its own.
unfoldable pub new_client : ClientId → Uuid → Text → Text → Text → Hub → Hub
new_client c user username display_name avatar_url h =
    set_client c
      (record {
        user_id = user;
        username = username;
        display_name = display_name;
        avatar_url = avatar_url;
        rooms = [];
        send = [];
        closed = false;
      })
      h

unfoldable pub register : ClientId → Hub → Hub
register c h = tell (set_online (h.heap c).user_id) (record h { clients = add c h.clients })

abbrev pub union : List ClientId → List ClientId → List ClientId
union [] t = t
union (c ∷ s) t = add c (union s t)

-- `roomPeers`: the clients that share a room with `c`.
unfoldable pub peers_in : ClientId → List Uuid → Hub → List ClientId
unfolding members
peers_in c [] h = []
peers_in c (room ∷ rooms) h = union (remove c (members room h)) (peers_in c rooms h)

unfoldable pub room_peers : ClientId → Hub → List ClientId
unfolding peers_in
room_peers c h = peers_in c (h.heap c).rooms h

unfoldable pub send_presence_to : List ClientId → Uuid → Text → Time → Hub → Option Hub
unfolding send_all
send_presence_to targets user username now h =
    send_all targets
      (record (blank MessageType.presence) {
        user_id = user;
        username = username;
        timestamp = now;
        status = offline;
      })
      h

unfoldable pub leave_rooms : ClientId → List Uuid → Hub → Hub
unfolding leave_room
leave_rooms c [] h = h
leave_rooms c (room ∷ rooms) h = leave_rooms c rooms (leave_room c room h)

-- The loop over the voice rooms; `handleVoiceLeave` deletes at most the room at hand.
unfoldable pub leave_voice_rooms : ClientId → List Uuid → Hub → Option Hub
unfolding handle_voice_leave
leave_voice_rooms c [] h = some h
leave_voice_rooms c (room ∷ rooms) h =
    (if contains c (voice_members room h) then handle_voice_leave c room h else some h)
    >>= leave_voice_rooms c rooms

abbrev pub close_send : ClientId → Hub → Hub
close_send c h = let k = h.heap c in set_client c (record k { closed = true }) h

unfoldable pub unregister : Time → ClientId → Hub → Option Hub
unfolding room_peers leave_rooms leave_voice_rooms send_presence_to
unregister now c h =
    let k = h.heap c in
    let peers = room_peers c h in
    let h₁ = leave_rooms c k.rooms (close_send c (record h { clients = remove c h.clients })) in
    if not (contains c h.clients)
    then some h
    else if k.closed
    then none
    else (leave_voice_rooms c (keys h₁.voice_rooms) h₁ >>= λ h₂.
        send_presence_to peers k.user_id k.username now (tell (set_offline k.user_id) h₂))

-- The `switch` of `handleMessage`; a type without a case is ignored.
abbrev pub dispatch : MessageType → Uuid → Time → ClientId → ClientMessage → Hub → Option Hub
dispatch MessageType.join_room new_id now c msg h = join_room c msg.room_id h
dispatch MessageType.leave_room new_id now c msg h = some (leave_room c msg.room_id h)
dispatch MessageType.chat_message new_id now c msg h = handle_chat new_id now c msg h
dispatch MessageType.typing new_id now c msg h = handle_typing c msg h
dispatch MessageType.voice_join new_id now c msg h = handle_voice_join c msg.room_id h
dispatch MessageType.voice_leave new_id now c msg h = handle_voice_leave c msg.room_id h
dispatch MessageType.voice_offer new_id now c msg h = relay_voice_signal c msg h
dispatch MessageType.voice_answer new_id now c msg h = relay_voice_signal c msg h
dispatch MessageType.ice_candidate new_id now c msg h = relay_voice_signal c msg h
dispatch _ new_id now c msg h = some h

unfoldable pub handle_message : Uuid → Time → ClientId → ClientMessage → Hub → Option Hub
handle_message new_id now c msg h = dispatch msg.type new_id now c msg h

-- What the hub's channels hand over. An incoming message comes with what `uuid.New()` and
-- `time.Now()` would return while it is handled.
pub data Event : Type 0 where
  registered : ClientId → Event
  unregistered : Time → ClientId → Event
  incoming : Uuid → Time → ClientId → ClientMessage → Event
  broadcast : Uuid → ServerMessage → Event

unfoldable pub step : Event → Hub → Option Hub
step (registered c) h = some (register c h)
step (unregistered now c) h = unregister now c h
step (incoming new_id now c msg) h = handle_message new_id now c msg h
step (broadcast room m) h = deliver_local room m h
