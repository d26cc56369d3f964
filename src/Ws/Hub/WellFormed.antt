-- ===== src/Ws/Hub/WellFormed.antt =====
-- The invariant of the hub between two events, and the changes that keep it.
use chat_back.Prelude.{
  ◌≤◌, ◌≡◌, ◌≢◌, arith, ap, true, false, List, [], some, lookup, contains, add, set_of, length,
  contains-add, contains-remove, lookup-insert, drop_from-some, add_some, ==_iff,
}
use chat_back.Domain.{Uuid}
use chat_back.Store.{World}
use chat_back.Ws.State.{
  ClientId, Client, Hub, Command, tell, members, voice_members, send_buffer_size,
}
use chat_back.Ws.State.Sends.{IsQuiet}
use chat_back.Ws.Rooms.{put_in, leave_room}
use chat_back.Ws.Rooms.Members.{members-put_in, rooms-put_in, members-leave_room, rooms-leave_room}
use chat_back.Ws.Voice.{put_in_voice, take_out_of_voice}
use chat_back.Ws.Voice.Participants.{voice_members-put_in_voice, voice_members-take_out}

pub record IsWellFormed (h : Hub) : Type 0 where
  -- A client is in the hub's set of a room just when the room is in the client's set.
  pub mirror : (c : ClientId) (r : Uuid) → contains c (members r h) ≡ contains r (h.heap c).rooms
  -- Who is in a room or a voice room is registered.
  pub live :
      (c : ClientId) (r : Uuid) → contains c (members r h) ≡ true → contains c h.clients ≡ true
  pub live_voice :
      (c : ClientId) (r : Uuid)
      → contains c (voice_members r h) ≡ true
      → contains c h.clients ≡ true
  -- The channel of a registered client is open.
  pub unclosed : (c : ClientId) → contains c h.clients ≡ true → (h.heap c).closed ≡ false
  -- No room is kept without a client.
  pub some_one : (r : Uuid) → lookup r h.rooms ≢ some []
  pub bounded : (c : ClientId) → length (h.heap c).send ≤ send_buffer_size

pub members-quiet : (h h' : Hub) (r : Uuid) → IsQuiet h h' → members r h' ≡ members r h
unfolding members
members-quiet h h' r q = ap (λ (d : List (Uuid × List ClientId)). set_of (lookup r d)) q.rooms

pub voice_members-quiet :
    (h h' : Hub) (r : Uuid) → IsQuiet h h' → voice_members r h' ≡ voice_members r h
unfolding voice_members
voice_members-quiet h h' r q =
    ap (λ (d : List (Uuid × List ClientId)). set_of (lookup r d)) q.voice_rooms

pub quiet-rooms : (h h' : Hub) (c : ClientId) → IsQuiet h h' → (h'.heap c).rooms ≡ (h.heap c).rooms
quiet-rooms h h' c q = ap (λ (k : Client). k.rooms) (q.objects c)

pub quiet-closed :
    (h h' : Hub) (c : ClientId) → IsQuiet h h' → (h'.heap c).closed ≡ (h.heap c).closed
quiet-closed h h' c q = ap (λ (k : Client). k.closed) (q.objects c)

-- Sending keeps the invariant.
pub quiet-IsWellFormed : (h h' : Hub) → IsQuiet h h' → IsWellFormed h → IsWellFormed h'
quiet-IsWellFormed h h' q wf = record {
  mirror = λ c r. ground (arith, wf.mirror c r, members-quiet h h' r q, quiet-rooms h h' c q);
  live = λ c r i. ground (arith, wf.live c r, members-quiet h h' r q, q.clients);
  live_voice = λ c r i. ground (arith, wf.live_voice c r, voice_members-quiet h h' r q, q.clients);
  unclosed = λ c i. ground (arith, wf.unclosed c, quiet-closed h h' c q, q.clients);
  some_one = λ r. rw q.rooms (wf.some_one r);
  bounded = λ c. q.queues c (wf.bounded c);
}

-- A registered client goes into a room.
pub put_in-IsWellFormed :
    (c : ClientId) (room : Uuid) (h : Hub)
    → contains c h.clients ≡ true
    → IsWellFormed h
    → IsWellFormed (put_in c room h)
unfolding put_in voice_members
put_in-IsWellFormed c room h reg wf = record {
  mirror = λ d r. ground (
    arith,
    wf.mirror d r,
    wf.mirror d room,
    wf.mirror c r,
    members-put_in r room c h,
    rooms-put_in d c room h,
    contains-add d c (members room h),
    contains-add r room (h.heap c).rooms,
  );
  live = λ d r i. ground (
    arith,
    wf.live d r,
    wf.live d room,
    members-put_in r room c h,
    contains-add d c (members room h),
    ==_iff d c,
  );
  live_voice = λ d r i. wf.live_voice d r i;
  unclosed = λ d i. ground (arith, wf.unclosed d i, wf.unclosed c reg);
  some_one = λ r. ground (
    arith,
    wf.some_one r,
    lookup-insert r room (add c (set_of (lookup room h.rooms))) h.rooms,
    add_some c (set_of (lookup room h.rooms)),
  );
  bounded = λ d. ground (arith, wf.bounded d, wf.bounded c);
}

-- A client goes out of a room.
pub leave_room-IsWellFormed :
    (c : ClientId) (room : Uuid) (h : Hub) → IsWellFormed h → IsWellFormed (leave_room c room h)
unfolding leave_room voice_members
leave_room-IsWellFormed c room h wf = record {
  mirror = λ d r. ground (
    arith,
    wf.mirror d r,
    wf.mirror d room,
    wf.mirror c r,
    members-leave_room r room c h,
    rooms-leave_room d c room h,
    contains-remove d c (members room h),
    contains-remove r room (h.heap c).rooms,
  );
  live = λ d r i. ground (
    arith,
    wf.live d r,
    wf.live d room,
    members-leave_room r room c h,
    contains-remove d c (members room h),
  );
  live_voice = λ d r i. wf.live_voice d r i;
  unclosed = λ d i. ground (arith, wf.unclosed d i, wf.unclosed c);
  some_one = λ r. drop_from-some r room c h.rooms (wf.some_one r);
  bounded = λ d. ground (arith, wf.bounded d, wf.bounded c);
}

-- A registered client goes into a voice room.
pub put_in_voice-IsWellFormed :
    (c : ClientId) (room : Uuid) (h : Hub)
    → contains c h.clients ≡ true
    → IsWellFormed h
    → IsWellFormed (put_in_voice c room h)
unfolding put_in_voice members
put_in_voice-IsWellFormed c room h reg wf = record {
  mirror = λ d r. wf.mirror d r;
  live = λ d r i. wf.live d r i;
  live_voice = λ d r i. ground (
    arith,
    wf.live_voice d r,
    wf.live_voice d room,
    voice_members-put_in_voice r room c h,
    contains-add d c (voice_members room h),
    ==_iff d c,
  );
  unclosed = λ d i. wf.unclosed d i;
  some_one = λ r. wf.some_one r;
  bounded = λ d. wf.bounded d;
}

-- A client goes out of a voice room.
pub take_out-IsWellFormed :
    (c : ClientId) (room : Uuid) (h : Hub)
    → IsWellFormed h
    → IsWellFormed (take_out_of_voice c room h)
unfolding take_out_of_voice members
take_out-IsWellFormed c room h wf = record {
  mirror = λ d r. wf.mirror d r;
  live = λ d r i. wf.live d r i;
  live_voice = λ d r i. ground (
    arith,
    wf.live_voice d r,
    wf.live_voice d room,
    voice_members-take_out r room c h,
    contains-remove d c (voice_members room h),
  );
  unclosed = λ d i. wf.unclosed d i;
  some_one = λ r. wf.some_one r;
  bounded = λ d. wf.bounded d;
}

-- What the services do to the tables, and what is asked of Redis, is of no matter to it.
pub world-IsWellFormed :
    (w : World) (h : Hub) → IsWellFormed h → IsWellFormed (record h { world = w })
unfolding members voice_members
world-IsWellFormed w h wf = record {
  mirror = λ d r. wf.mirror d r;
  live = λ d r i. wf.live d r i;
  live_voice = λ d r i. wf.live_voice d r i;
  unclosed = λ d i. wf.unclosed d i;
  some_one = λ r. wf.some_one r;
  bounded = λ d. wf.bounded d;
}

pub tell-IsWellFormed : (m : Command) (h : Hub) → IsWellFormed h → IsWellFormed (tell m h)
unfolding members voice_members
tell-IsWellFormed m h wf = record {
  mirror = λ d r. wf.mirror d r;
  live = λ d r i. wf.live d r i;
  live_voice = λ d r i. wf.live_voice d r i;
  unclosed = λ d i. wf.unclosed d i;
  some_one = λ r. wf.some_one r;
  bounded = λ d. wf.bounded d;
}
