-- ===== src/Ws/Rooms/Members.antt =====
-- Who is in which room after `put_in` and `leave_room`.
use chat_back.Prelude.{
  ◌≡◌, refl, arith, ◌==◌, if◌then◌else◌, lookup, add, remove, set_of, lookup-drop_from,
  lookup-insert,
}
use chat_back.Domain.{Uuid}
use chat_back.Ws.State.{ClientId, Hub, members}
use chat_back.Ws.Rooms.{put_in, leave_room}

pub members-put_in :
    (r room : Uuid) (c : ClientId) (h : Hub)
    → members r (put_in c room h) ≡ (if r == room then add c (members room h) else members r h)
unfolding members put_in
members-put_in r room c h =
    ground (arith, lookup-insert r room (add c (set_of (lookup room h.rooms))) h.rooms)

pub rooms-put_in :
    (d c : ClientId) (room : Uuid) (h : Hub)
    → ((put_in c room h).heap d).rooms
      ≡ (if d == c then add room (h.heap c).rooms else (h.heap d).rooms)
unfolding put_in
rooms-put_in d c room h = ground arith

pub members-leave_room :
    (r room : Uuid) (c : ClientId) (h : Hub)
    → members r (leave_room c room h)
      ≡ (if r == room then remove c (members room h) else members r h)
unfolding members leave_room
members-leave_room r room c h = lookup-drop_from r room c h.rooms

pub rooms-leave_room :
    (d c : ClientId) (room : Uuid) (h : Hub)
    → ((leave_room c room h).heap d).rooms
      ≡ (if d == c then remove room (h.heap c).rooms else (h.heap d).rooms)
unfolding leave_room
rooms-leave_room d c room h = ground arith

pub clients-put_in : (c : ClientId) (room : Uuid) (h : Hub) → (put_in c room h).clients ≡ h.clients
unfolding put_in
clients-put_in c room h = refl

pub clients-leave_room :
    (c : ClientId) (room : Uuid) (h : Hub) → (leave_room c room h).clients ≡ h.clients
unfolding leave_room
clients-leave_room c room h = refl
