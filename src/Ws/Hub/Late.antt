-- ===== src/Ws/Hub/Late.antt =====
-- An event that comes too late: the hub's channels are separate, so it may take a client's
-- `unregister` before a message that the client has sent earlier.
use chat_back.Prelude.{◌≡◌, arith, sym, ◌∙◌, true, false, none, some, contains}
use chat_back.Domain.{Uuid, Time, Room}
use chat_back.Store.{Result, ok, err}
use chat_back.App.RoomService
use chat_back.Ws.Protocol.{MessageType, ClientMessage, literal}
use chat_back.Ws.State.{ClientId, Hub, send_error, error_message}
use chat_back.Ws.State.Sends.{Runs-result, try_send_closed}
use chat_back.Ws.Rooms.{
  join_room, after_lookup, after_entry, Entry, enter, refuse, put_in, room_joined, admission,
}
use chat_back.Ws.Hub.{unregistered, incoming, step, handle_message}
use chat_back.Ws.Hub.WellFormed.{IsWellFormed}
use chat_back.Ws.Hub.Unregister.{IsOut, unregister_runs}

closed-put_in :
    (c : ClientId) (room : Uuid) (h : Hub) → ((put_in c room h).heap c).closed ≡ (h.heap c).closed
unfolding put_in
closed-put_in c room h = ground arith

after_entry_panics :
    (c : ClientId) (room : Uuid) (entry : Entry) (h : Hub)
    → (h.heap c).closed ≡ true
    → after_entry c room entry h ≡ none
unfolding send_error
after_entry_panics c room enter h e =
    try_send_closed c (room_joined room (put_in c room h)) (put_in c room h)
      (closed-put_in c room h ∙ e)
after_entry_panics c room (refuse text) h e = try_send_closed c (error_message "forbidden" text) h e

after_lookup_panics :
    (c : ClientId) (room : Uuid) (r : Result Room) (h : Hub)
    → (h.heap c).closed ≡ true
    → after_lookup c room r h ≡ none
unfolding send_error
after_lookup_panics c room (err x) h e =
    try_send_closed c (error_message "room_not_found" (literal "room not found")) h e
after_lookup_panics c room (ok r) h e =
    let (entry, w) = admission r.type room r (h.heap c).user_id h.world in
    after_entry_panics c room entry (record h { world = w }) e

-- A `join_room` of a client whose channel is closed and that is not in the room panics, whatever
-- the room and whatever the database answers.
join_room_panics :
    (c : ClientId) (room : Uuid) (h : Hub)
    → (h.heap c).closed ≡ true
    → contains room (h.heap c).rooms ≡ false
    → join_room c room h ≡ none
unfolding join_room
join_room_panics c room h e out =
    let (r, w) = RoomService.get_room room h.world in
    rw out (after_lookup_panics c room r (record h { world = w }) e)

-- The hub's goroutine panics, and the server with it, if a client's `join_room` is taken after its
-- `unregister`: from any state that satisfies the invariant, for any registered client and room.
pub late_join_panics :
    (now now' : Time) (c : ClientId) (new_id : Uuid) (msg : ClientMessage) (h h' : Hub)
    → IsWellFormed h
    → contains c h.clients ≡ true
    → msg.type ≡ MessageType.join_room
    → step (unregistered now c) h ≡ some h'
    → step (incoming new_id now' c msg) h' ≡ none
unfolding step handle_message
late_join_panics now now' c new_id msg h h' wf reg t eq =
    let out = Runs-result _ (IsOut c h) h' (unregister_runs now c h wf reg) eq in
    rw t (
      join_room_panics c msg.room_id h' out.is_closed
        (sym (out.well_formed.mirror c msg.room_id) ∙ out.no_room msg.room_id))
