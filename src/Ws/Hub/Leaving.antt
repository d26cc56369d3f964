-- ===== src/Ws/Hub/Leaving.antt =====
-- The way out of the hub: `unregister` takes the client out of every room and voice room, closes
-- its channel, and does not panic.
use chat_back.Prelude.{
  ◌≤◌, ◌≡◌, ◌≢◌, refl, arith, ◌∙◌, true, false, not, ◌&&◌, List, [], ◌∷◌, some, ◌==◌, lookup,
  contains, remove, length, contains-remove, contains-nil, contains-cons, keys, lookup-keys,
  drop_from-some,
}
use chat_back.Domain.{Uuid}
use chat_back.Ws.State.{ClientId, Hub, members, voice_members, send_buffer_size}
use chat_back.Ws.State.Sends.{IsQuiet}
use chat_back.Ws.Rooms.{leave_room}
use chat_back.Ws.Rooms.Members.{members-leave_room, rooms-leave_room, clients-leave_room}
use chat_back.Ws.Voice.{take_out_of_voice}
use chat_back.Ws.Voice.Participants.{voice_members-take_out}
use chat_back.Ws.Hub.{leave_rooms, close_send}
use chat_back.Ws.Hub.WellFormed.{
  IsWellFormed, members-quiet, voice_members-quiet, quiet-rooms, quiet-closed,
}

-- The invariant while `c` is on its way out: it is no longer registered, and may still be in rooms.
pub record IsLeaving (c : ClientId) (h : Hub) : Type 0 where
  pub unregistered : contains c h.clients ≡ false
  pub mirror : (d : ClientId) (r : Uuid) → contains d (members r h) ≡ contains r (h.heap d).rooms
  pub live :
      (d : ClientId) (r : Uuid)
      → (d == c) ≡ false
      → contains d (members r h) ≡ true
      → contains d h.clients ≡ true
  pub live_voice :
      (d : ClientId) (r : Uuid)
      → (d == c) ≡ false
      → contains d (voice_members r h) ≡ true
      → contains d h.clients ≡ true
  pub unclosed : (d : ClientId) → contains d h.clients ≡ true → (h.heap d).closed ≡ false
  pub some_one : (r : Uuid) → lookup r h.rooms ≢ some []
  pub bounded : (d : ClientId) → length (h.heap d).send ≤ send_buffer_size

pub close-IsLeaving :
    (c : ClientId) (h : Hub)
    → IsWellFormed h
    → IsLeaving c (close_send c (record h { clients = remove c h.clients }))
unfolding members voice_members
close-IsLeaving c h wf = record {
  unregistered = ground (arith, contains-remove c c h.clients);
  mirror = λ d r. ground (arith, wf.mirror d r, wf.mirror c r);
  live = λ d r ne i. ground (arith, wf.live d r, contains-remove d c h.clients);
  live_voice = λ d r ne i. ground (arith, wf.live_voice d r, contains-remove d c h.clients);
  unclosed = λ d i. ground (arith, wf.unclosed d, contains-remove d c h.clients);
  some_one = λ r. wf.some_one r;
  bounded = λ d. ground (arith, wf.bounded d, wf.bounded c);
}

pub quiet-IsLeaving : (c : ClientId) (h h' : Hub) → IsQuiet h h' → IsLeaving c h → IsLeaving c h'
quiet-IsLeaving c h h' q wf = record {
  unregistered = rw q.clients wf.unregistered;
  mirror = λ d r. ground (arith, wf.mirror d r, members-quiet h h' r q, quiet-rooms h h' d q);
  live = λ d r ne i. ground (arith, wf.live d r, members-quiet h h' r q, q.clients);
  live_voice =
      λ d r ne i. ground (arith, wf.live_voice d r, voice_members-quiet h h' r q, q.clients);
  unclosed = λ d i. ground (arith, wf.unclosed d, quiet-closed h h' d q, q.clients);
  some_one = λ r. rw q.rooms (wf.some_one r);
  bounded = λ d. q.queues d (wf.bounded d);
}

leave_room-IsLeaving :
    (c : ClientId) (room : Uuid) (h : Hub) → IsLeaving c h → IsLeaving c (leave_room c room h)
unfolding leave_room voice_members
leave_room-IsLeaving c room h wf = record {
  unregistered = wf.unregistered;
  mirror = λ d r. ground (
    arith,
    wf.mirror d r,
    wf.mirror d room,
    wf.mirror c r,
    members-leave_room r room c h,
    rooms-leave_room d c room h,
    contains-remove d c (members room h),
    contains-remove r room (h.heap c).rooms,
  );
  live = λ d r ne i. ground (
    arith,
    wf.live d r,
    wf.live d room,
    members-leave_room r room c h,
    contains-remove d c (members room h),
  );
  live_voice = λ d r ne i. wf.live_voice d r ne i;
  unclosed = λ d i. ground (arith, wf.unclosed d i, wf.unclosed c);
  some_one = λ r. drop_from-some r room c h.rooms (wf.some_one r);
  bounded = λ d. ground (arith, wf.bounded d, wf.bounded c);
}

pub take_out-IsLeaving :
    (c : ClientId) (room : Uuid) (h : Hub)
    → IsLeaving c h
    → IsLeaving c (take_out_of_voice c room h)
unfolding take_out_of_voice members
take_out-IsLeaving c room h wf = record {
  unregistered = wf.unregistered;
  mirror = λ d r. wf.mirror d r;
  live = λ d r ne i. wf.live d r ne i;
  live_voice = λ d r ne i. ground (
    arith,
    wf.live_voice d r,
    wf.live_voice d room,
    voice_members-take_out r room c h,
    contains-remove d c (voice_members room h),
  );
  unclosed = λ d i. wf.unclosed d i;
  some_one = λ r. wf.some_one r;
  bounded = λ d. wf.bounded d;
}

pub leave_rooms-IsLeaving :
    (c : ClientId) (rooms : List Uuid) (h : Hub)
    → IsLeaving c h
    → IsLeaving c (leave_rooms c rooms h)
unfolding leave_rooms
leave_rooms-IsLeaving c [] h wf = wf
leave_rooms-IsLeaving c (room ∷ rooms) h wf =
    leave_rooms-IsLeaving c rooms (leave_room c room h) (leave_room-IsLeaving c room h wf)

pub clients-leave_rooms :
    (c : ClientId) (rooms : List Uuid) (h : Hub) → (leave_rooms c rooms h).clients ≡ h.clients
unfolding leave_rooms
clients-leave_rooms c [] h = refl
clients-leave_rooms c (room ∷ rooms) h =
    clients-leave_rooms c rooms (leave_room c room h) ∙ clients-leave_room c room h

-- The loop leaves each room of its list.
pub rooms-leave_rooms :
    (c : ClientId) (rooms : List Uuid) (h : Hub) (r : Uuid)
    → contains r ((leave_rooms c rooms h).heap c).rooms
      ≡ (not (contains r rooms) && contains r (h.heap c).rooms)
unfolding leave_rooms
rooms-leave_rooms c [] h r = ground (arith, contains-nil r)
rooms-leave_rooms c (room ∷ rooms) h r = ground (
  arith,
  rooms-leave_rooms c rooms (leave_room c room h) r,
  rooms-leave_room c c room h,
  contains-remove r room (h.heap c).rooms,
  contains-cons r room rooms,
)

-- A voice room with a participant is among the keys.
pub voice_members-keys :
    (c : ClientId) (r : Uuid) (h : Hub)
    → contains c (voice_members r h) ≡ true
    → contains r (keys h.voice_rooms) ≡ true
unfolding voice_members
voice_members-keys c r h i = lookup-keys c r h.voice_rooms i

closed-leave_room :
    (c d : ClientId) (room : Uuid) (h : Hub)
    → ((leave_room c room h).heap d).closed ≡ (h.heap d).closed
unfolding leave_room
closed-leave_room c d room h = ground arith

pub closed-leave_rooms :
    (c : ClientId) (rooms : List Uuid) (h : Hub)
    → ((leave_rooms c rooms h).heap c).closed ≡ (h.heap c).closed
unfolding leave_rooms
closed-leave_rooms c [] h = refl
closed-leave_rooms c (room ∷ rooms) h =
    closed-leave_rooms c rooms (leave_room c room h) ∙ closed-leave_room c c room h
