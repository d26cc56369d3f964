-- ===== src/Ws/Voice.antt =====
-- hub.go: `handleVoiceJoin`, `handleVoiceLeave` and `relayVoiceSignal`. Where Go ranges over a map
-- in no fixed order, the set's order is taken.
pub mod Participants
use chat_back.Prelude.{
  ℕ, Bool, true, false, not, List, [], ◌∷◌, ◌++◌, Option, none, some, ◌==◌, if◌then◌else◌, lookup,
  insert, erase, contains, add, remove, set_of, drop_from, map, find_row,
}
use chat_back.Domain.{Uuid, uuid_nil}
use chat_back.Ws.Protocol.{MessageType, ClientMessage, ServerMessage, blank}
use chat_back.Ws.State.{ClientId, Client, Hub, ◌>>=◌, voice_members, try_send, send_all}

abbrev pub user_of : Hub → ClientId → Uuid
user_of h c = (h.heap c).user_id

-- `h.voiceRooms[roomID][c] = struct{}{}`, in a new map if there is none.
unfoldable pub put_in_voice : ClientId → Uuid → Hub → Hub
put_in_voice c room h = record h {
  voice_rooms = insert room (add c (set_of (lookup room h.voice_rooms))) h.voice_rooms;
}

unfoldable pub handle_voice_join : ClientId → Uuid → Hub → Option Hub
unfolding put_in_voice voice_members try_send send_all
handle_voice_join c room h =
    let h' = put_in_voice c room h in
    let peers = remove c (voice_members room h') in
    let k = h.heap c in
    try_send c
      (record (blank MessageType.voice_participants) {
        room_id = room;
        participants = map (user_of h') peers;
      })
      h'
    >>= send_all peers (record (blank MessageType.voice_joined) {
      room_id = room;
      user_id = k.user_id;
      username = k.username;
    })

unfoldable pub take_out_of_voice : ClientId → Uuid → Hub → Hub
take_out_of_voice c room h = record h {
  voice_rooms = drop_from c room (lookup room h.voice_rooms) h.voice_rooms;
}

unfoldable pub handle_voice_leave : ClientId → Uuid → Hub → Option Hub
unfolding take_out_of_voice voice_members send_all
handle_voice_leave c room h =
    let h' = take_out_of_voice c room h in
    let k = h.heap c in
    send_all (voice_members room h')
      (record (blank MessageType.voice_left) {
        room_id = room;
        user_id = k.user_id;
        username = k.username;
      })
      h'

abbrev pub signal : Client → ClientMessage → ServerMessage
signal k msg = record (blank msg.type) {
  room_id = msg.room_id;
  user_id = k.user_id;
  sdp = msg.sdp;
  sdp_type = msg.sdp_type;
  candidate = msg.candidate;
  sdp_mid = msg.sdp_mid;
  sdp_m_line_index = msg.sdp_m_line_index;
}

abbrev pub relay_to : ClientId → ClientMessage → Option ClientId → Hub → Option Hub
relay_to c msg none h = some h
relay_to c msg (some peer) h = try_send peer (signal (h.heap c) msg) h

unfoldable pub relay_voice_signal : ClientId → ClientMessage → Hub → Option Hub
unfolding voice_members try_send
relay_voice_signal c msg h =
    if msg.target_user_id == uuid_nil
    then some h
    else relay_to c msg
        (find_row (λ (p : ClientId). user_of h p == msg.target_user_id)
          (voice_members msg.room_id h))
        h
