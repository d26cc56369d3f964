-- ===== src/Ws/Rooms.antt =====
-- hub.go: `joinRoom`, `leaveRoom`, `handleChat`, `handleTyping` and `deliverLocal`.

pub mod Members
use chat_back.Prelude.{
  ℕ, Bool, true, false, not, List, [], ◌∷◌, ◌++◌, Option, none, some, ◌==◌, ltb, length,
  if◌then◌else◌, update, lookup, insert, erase, contains, add, remove, set_of, drop_from, empties,
  is_nil, map, is_some,
}
use chat_back.Text.{Text}
use chat_back.Domain.{
  Uuid, Time, Error, Room, RoomType, public, private, dm, voice, other, Member, MemberRole, member,
}
use chat_back.Store.{World, Query, Result, ok, err, ignore}
use chat_back.App.RoomService
use chat_back.App.MessageService
use chat_back.Domain
use chat_back.Ws.Protocol.{
  MessageType, ClientMessage, ServerMessage, ErrorText, literal, rendered, blank,
}
use chat_back.Ws.State.{
  ClientId, Client, Hub, Command, subscribe, unsubscribe, publish, ◌>>=◌, members, tell, set_client,
  try_send, send_all, send_error,
}

-- The `switch` on the room's type: whether the client goes in, or with what words it is refused.
pub data Entry : Type 0 where
  enter : Entry
  refuse : ErrorText → Entry

-- `ok, err := IsMember(…); if err != nil || !ok { … }`
abbrev entry_of : ErrorText → Result Bool → Entry
entry_of text (ok true) = enter
entry_of text (ok false) = refuse text
entry_of text (err _) = refuse text

abbrev pub admission : RoomType → Uuid → Room → Uuid → World → Entry × World
admission public id room user w = (enter, (RoomService.add_member id user member w).1)
admission voice id room user w = (enter, (RoomService.add_member id user member w).1)
admission dm id room user w =
    let (r, w') = RoomService.is_member id user w in
    (entry_of (literal "not a participant of this DM") r, w')
admission private id room user w =
    let (r, w') = RoomService.is_member id user w in
    if room.owner_id == user
    then (enter, w)
    else (entry_of (literal "not a member of this room") r, w')
admission (other _) id room user w = (enter, w)

-- The client goes into the room; the first one of a room starts the subscription.
unfoldable pub put_in : ClientId → Uuid → Hub → Hub
put_in c room h =
    let k = h.heap c in
    let h' = set_client c (record k { rooms = add room k.rooms }) h in
    record h' {
      rooms = insert room (add c (set_of (lookup room h.rooms))) h.rooms;
      log = if is_some (lookup room h.rooms) then h.log else subscribe room ∷ h.log;
    }

abbrev pub member_of : Hub → ClientId → Member
member_of h c =
    let k = h.heap c in record { user_id = k.user_id; username = k.username; role = none }

unfoldable pub room_joined : Uuid → Hub → ServerMessage
room_joined room h = record (blank MessageType.room_joined) {
  room_id = room;
  members = map (member_of h) (members room h);
}

abbrev pub after_entry : ClientId → Uuid → Entry → Hub → Option Hub
after_entry c room (refuse text) h = send_error c "forbidden" text h
after_entry c room enter h = let h' = put_in c room h in try_send c (room_joined room h') h'

abbrev pub after_lookup : ClientId → Uuid → Result Room → Hub → Option Hub
after_lookup c room (err _) h = send_error c "room_not_found" (literal "room not found") h
after_lookup c room (ok r) h =
    let (entry, w) = admission r.type room r (h.heap c).user_id h.world in
    after_entry c room entry (record h { world = w })

unfoldable pub join_room : ClientId → Uuid → Hub → Option Hub
unfolding put_in room_joined send_error try_send RoomService.get_room RoomService.add_member
    RoomService.is_member
join_room c room h =
    let (r, w) = RoomService.get_room room h.world in
    if contains room (h.heap c).rooms
    then some h
    else after_lookup c room r (record h { world = w })

unfoldable pub leave_room : ClientId → Uuid → Hub → Hub
leave_room c room h =
    let k = h.heap c in
    let h' = set_client c (record k { rooms = remove room k.rooms }) h in
    record h' {
      rooms = drop_from c room (lookup room h.rooms) h.rooms;
      log = if empties c (lookup room h.rooms) then unsubscribe room ∷ h.log else h.log;
    }

unfoldable pub deliver_local : Uuid → ServerMessage → Hub → Option Hub
unfolding members send_all
deliver_local room m h = send_all (members room h) m h

-- The frame that `handleChat` publishes for a saved message.
abbrev pub chat_frame : Client → Domain.Message → ServerMessage
chat_frame k saved = record (blank MessageType.chat_message) {
  message_id = saved.id;
  room_id = saved.room_id;
  user_id = saved.user_id;
  username = saved.username;
  display_name = k.display_name;
  avatar_url = k.avatar_url;
  content = saved.content;
  timestamp = saved.created_at;
}

abbrev pub after_send : ClientId → Uuid → Result Domain.Message → Hub → Option Hub
after_send c room (err e) h = send_error c "send_failed" (rendered e) h
after_send c room (ok saved) h = some (tell (publish room (chat_frame (h.heap c) saved)) h)

unfoldable pub handle_chat : Uuid → Time → ClientId → ClientMessage → Hub → Option Hub
unfolding send_error MessageService.send_message
handle_chat new_id now c msg h =
    let k = h.heap c in
    let (r, w) =
      MessageService.send_message new_id now k.user_id k.username msg.room_id msg.content h.world in
    after_send c msg.room_id r (record h { world = w })

unfoldable pub handle_typing : ClientId → ClientMessage → Hub → Option Hub
unfolding deliver_local
handle_typing c msg h =
    let k = h.heap c in
    if is_some msg.is_typing
    then deliver_local msg.room_id
        (record (blank MessageType.typing) {
          room_id = msg.room_id;
          user_id = k.user_id;
          username = k.username;
        })
        h
    else some h
