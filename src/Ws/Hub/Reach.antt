-- ===== src/Ws/Hub/Reach.antt =====
-- Runs of the hub: what its loop and the pumps of its clients do, one step after the other.
use chat_back.Prelude.{
  ◌≤◌, ◌≡◌, ◌≢◌, refl, arith, true, false, List, [], ◌∷◌, Option, none, some, ◌==◌, contains,
  contains-add, contains-nil, length, ==_iff, Bool-cases, inl, inr, lookup-nil,
}
use chat_back.Text.{Text}
use chat_back.Domain.{Uuid, Time}
use chat_back.Store.{World}
use chat_back.Ws.Protocol.{MessageType, ClientMessage, ServerMessage, literal}
use chat_back.Ws.State.{
  ClientId, Hub, members, voice_members, set_client, error_message, send_error,
}
use chat_back.Ws.State.Sends.{Runs, Runs-result}
use chat_back.Ws.Rooms.{leave_room}
use chat_back.Ws.Hub.{
  Event, registered, unregistered, incoming, broadcast, step, new_hub, new_client, register,
  handle_message, dispatch, unregister,
}
use chat_back.Ws.Hub.WellFormed.{IsWellFormed, leave_room-IsWellFormed}
use chat_back.Ws.Hub.Handlers.{
  Keeps, join_room-Keeps, handle_chat-Keeps, handle_typing-Keeps, handle_voice_join-Keeps,
  handle_voice_leave-Keeps, relay_voice_signal-Keeps, deliver_local-Keeps, send-Keeps,
}
use chat_back.Ws.Hub.Unregister.{unregister_runs}

abbrev rest_of : List ServerMessage → List ServerMessage
rest_of [] = []
rest_of (_ ∷ q) = q

length-rest_of : (q : List ServerMessage) → length (rest_of q) ≤ length q
length-rest_of [] = omega arith
length-rest_of (m ∷ q) = omega arith

-- The hub of `NewHub` satisfies the invariant.
new_hub-IsWellFormed : (w : World) → IsWellFormed (new_hub w)
unfolding new_hub members voice_members
new_hub-IsWellFormed w = record {
  mirror = λ c r. ground (arith, contains-nil c, contains-nil r, lookup-nil {V = List ClientId} r);
  live = λ c r i. ground (arith, contains-nil c, lookup-nil {V = List ClientId} r);
  live_voice = λ c r i. ground (arith, contains-nil c, lookup-nil {V = List ClientId} r);
  unclosed = λ c i. refl;
  some_one = λ r. ground (arith, lookup-nil {V = List ClientId} r);
  bounded = λ c. omega arith;
}

-- `NewClient`, at a pointer that is not registered.
new_client-IsWellFormed :
    (c : ClientId) (user : Uuid) (username display_name avatar_url : Text) (h : Hub)
    → contains c h.clients ≡ false
    → IsWellFormed h
    → IsWellFormed (new_client c user username display_name avatar_url h)
unfolding new_client members voice_members
new_client-IsWellFormed c user username display_name avatar_url h fresh wf = record {
  mirror = λ d r. elim (Bool-cases (d == c)) [
    | inl same ↦ ground (arith, wf.mirror c r, wf.live c r, contains-nil r, ==_iff d c)
    | inr differs ↦ ground (arith, wf.mirror d r)
  ];
  live = λ d r i. wf.live d r i;
  live_voice = λ d r i. wf.live_voice d r i;
  unclosed = λ d i. ground (arith, wf.unclosed d);
  some_one = λ r. wf.some_one r;
  bounded = λ d. ground (arith, wf.bounded d);
}

register-IsWellFormed :
    (c : ClientId) (h : Hub)
    → (h.heap c).closed ≡ false
    → IsWellFormed h
    → IsWellFormed (register c h)
unfolding register members voice_members
register-IsWellFormed c h fresh wf = record {
  mirror = λ d r. wf.mirror d r;
  live = λ d r i. ground (arith, wf.live d r, contains-add d c h.clients);
  live_voice = λ d r i. ground (arith, wf.live_voice d r, contains-add d c h.clients);
  unclosed = λ d i. ground (arith, wf.unclosed d, contains-add d c h.clients, ==_iff d c);
  some_one = λ r. wf.some_one r;
  bounded = λ d. wf.bounded d;
}

-- `writePump` takes the first frame of the queue.
unfoldable pub write_one : ClientId → Hub → Hub
write_one c h = let k = h.heap c in set_client c (record k { send = rest_of k.send }) h

write_one-IsWellFormed : (c : ClientId) (h : Hub) → IsWellFormed h → IsWellFormed (write_one c h)
unfolding write_one members voice_members
write_one-IsWellFormed c h wf = record {
  mirror = λ d r. ground (arith, wf.mirror d r, wf.mirror c r);
  live = λ d r i. wf.live d r i;
  live_voice = λ d r i. wf.live_voice d r i;
  unclosed = λ d i. ground (arith, wf.unclosed d, wf.unclosed c);
  some_one = λ r. wf.some_one r;
  bounded = λ d. ground (arith, wf.bounded d, wf.bounded c, length-rest_of (h.heap c).send);
}

-- `readPump` answers a frame that is no JSON.
unfoldable pub reject_frame : ClientId → Hub → Option Hub
unfolding send_error
reject_frame c h = send_error c "invalid_message" (literal "invalid JSON") h

-- An event is timely if the client that it comes from is registered, or registers, with an open
-- channel. That is the order in which a client sends its own events.
abbrev pub IsTimely : Event → Hub → Type 0
IsTimely (registered c) h = (h.heap c).closed ≡ false
IsTimely (unregistered now c) h = Unit {0}
IsTimely (incoming new_id now c msg) h = contains c h.clients ≡ true
IsTimely (broadcast room m) h = Unit {0}

kept : (o : Option Hub) (h : Hub) → Runs o (Keeps h) → Runs o IsWellFormed
kept o h (h', e, k) = (h', e, k.well_formed)

dispatch_runs :
    (t : MessageType) (new_id : Uuid) (now : Time) (c : ClientId) (msg : ClientMessage) (h : Hub)
    → IsWellFormed h
    → contains c h.clients ≡ true
    → Runs (dispatch t new_id now c msg h) IsWellFormed
dispatch_runs MessageType.join_room new_id now c msg h wf reg =
    kept _ h (join_room-Keeps c msg.room_id h wf reg)
dispatch_runs MessageType.leave_room new_id now c msg h wf reg =
    (leave_room c msg.room_id h, refl, leave_room-IsWellFormed c msg.room_id h wf)
dispatch_runs MessageType.chat_message new_id now c msg h wf reg =
    kept _ h (handle_chat-Keeps new_id now c msg h wf reg)
dispatch_runs MessageType.typing new_id now c msg h wf reg =
    kept _ h (handle_typing-Keeps c msg h wf)
dispatch_runs MessageType.voice_join new_id now c msg h wf reg =
    kept _ h (handle_voice_join-Keeps c msg.room_id h wf reg)
dispatch_runs MessageType.voice_leave new_id now c msg h wf reg =
    kept _ h (handle_voice_leave-Keeps c msg.room_id h wf)
dispatch_runs MessageType.voice_offer new_id now c msg h wf reg =
    kept _ h (relay_voice_signal-Keeps c msg h wf)
dispatch_runs MessageType.voice_answer new_id now c msg h wf reg =
    kept _ h (relay_voice_signal-Keeps c msg h wf)
dispatch_runs MessageType.ice_candidate new_id now c msg h wf reg =
    kept _ h (relay_voice_signal-Keeps c msg h wf)
dispatch_runs _ new_id now c msg h wf reg = (h, refl, wf)

unregister_unknown :
    (now : Time) (c : ClientId) (h : Hub)
    → contains c h.clients ≡ false
    → unregister now c h ≡ some h
unfolding unregister
unregister_unknown now c h gone = rw gone

-- A round of the hub's loop at a timely event does not panic, whatever the services answer, and
-- keeps the invariant.
pub step_runs : (e : Event) (h : Hub) → IsWellFormed h → IsTimely e h → Runs (step e h) IsWellFormed
unfolding step handle_message
step_runs (registered c) h wf timely = (register c h, refl, register-IsWellFormed c h timely wf)
step_runs (unregistered now c) h wf timely = elim (Bool-cases (contains c h.clients)) [
  | inl reg ↦ let (h', e, out) = unregister_runs now c h wf reg in (h', e, out.well_formed)
  | inr gone ↦ (h, unregister_unknown now c h gone, wf)
]
step_runs (incoming new_id now c msg) h wf timely =
    dispatch_runs msg.type new_id now c msg h wf timely
step_runs (broadcast room m) h wf timely = kept _ h (deliver_local-Keeps room m h wf)

reject_frame_runs :
    (c : ClientId) (h : Hub)
    → IsWellFormed h
    → contains c h.clients ≡ true
    → Runs (reject_frame c h) IsWellFormed
unfolding reject_frame
reject_frame_runs c h wf reg =
    kept _ h (send-Keeps c (error_message "invalid_message" (literal "invalid JSON")) h wf reg)

-- The states that the hub and its pumps go through, each event timely.
pub data Reaches (w : World) : Hub → Type 0 where
  start : Reaches w (new_hub w)
  connects :
      {h : Hub} (c : ClientId) (user : Uuid) (username display_name avatar_url : Text)
      → Reaches w h
      → contains c h.clients ≡ false
      → Reaches w (new_client c user username display_name avatar_url h)
  steps : {h h' : Hub} (e : Event) → Reaches w h → IsTimely e h → step e h ≡ some h' → Reaches w h'
  writes : {h : Hub} (c : ClientId) → Reaches w h → Reaches w (write_one c h)
  rejects :
      {h h' : Hub} (c : ClientId)
      → Reaches w h
      → contains c h.clients ≡ true
      → reject_frame c h ≡ some h'
      → Reaches w h'

-- Every state of such a run satisfies the invariant.
pub Reaches-IsWellFormed : {w : World} {h : Hub} → Reaches w h → IsWellFormed h
Reaches-IsWellFormed {w} start = new_hub-IsWellFormed w
Reaches-IsWellFormed (connects c user n d a r fresh) =
    new_client-IsWellFormed c user n d a _ fresh (Reaches-IsWellFormed r)
Reaches-IsWellFormed (steps {h = h} e r timely eq) =
    Runs-result _ IsWellFormed _ (step_runs e h (Reaches-IsWellFormed r) timely) eq
Reaches-IsWellFormed (writes c r) = write_one-IsWellFormed c _ (Reaches-IsWellFormed r)
Reaches-IsWellFormed (rejects {h = h} c r reg eq) =
    Runs-result _ IsWellFormed _ (reject_frame_runs c h (Reaches-IsWellFormed r) reg) eq

-- In every state of such a run the hub handles every timely event without a panic, a client is
-- listed in a room just when it has joined it, only registered clients with open channels are in
-- rooms and voice rooms, no room is kept empty, and no queue holds more than 256 frames.
pub reachable_safe :
    (w : World) (h : Hub) (e : Event)
    → Reaches w h
    → IsTimely e h
    → IsWellFormed h × (step e h ≢ none)
reachable_safe w h e r timely =
    let wf = Reaches-IsWellFormed r in
    let (h', eq, _) = step_runs e h wf timely in (wf, λ stuck. ground arith)
