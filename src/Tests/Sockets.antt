-- ===== src/Tests/Sockets.antt =====
-- The hub: two clients connect, and one of them joins a room.
use chat_back.Prelude.{
  ◌≡◌, ◌≢◌, refl, true, [], Option, none, some, if◌then◌else◌, contains, add, lookup, insert,
}
use chat_back.Domain.{Uuid, Room, public, member, uuid_nil}
use chat_back.Store.{next_fails, later_faults}
use chat_back.Postgres.RoomRepo.{role_in, room_with}
use chat_back.Postgres.RoomRepo.Seats.{same_seat}
use chat_back.Ws.Protocol.{MessageType, ClientMessage}
use chat_back.Ws.State.{Hub, members}
use chat_back.Ws.State.Sends.{Runs}
use chat_back.Ws.Rooms.{join_room}
use chat_back.Ws.Hub.{
  registered, unregistered, incoming, step, new_hub, new_client, register, unregister,
}
use chat_back.Ws.Hub.WellFormed.{IsWellFormed}
use chat_back.Ws.Hub.Reach.{Reaches, start, connects, steps, reachable_safe, Reaches-IsWellFormed}
use chat_back.Ws.Hub.Unregister.{IsOut, unregister_runs}
use chat_back.Ws.Hub.Late.{late_join_panics}
use chat_back.Ws.Hub.Access.{MayEnter, join_room_authorised, join_room_demotes}
use chat_back.Tests.Sample.{alice, hall, den, book, world, room_row}

abbrev state_of : Option Hub → Hub
state_of none = new_hub world
state_of (some h) = h

-- Alice has connected as client 1.
abbrev one_client : Hub
one_client = register 1 (new_client 1 alice [] [] [] (new_hub world))

one_client-Reaches : Reaches world one_client
unfolding register new_client new_hub step unregister contains add lookup
one_client-Reaches = steps (registered 1) (connects 1 alice [] [] [] start refl) refl refl

one_client-IsWellFormed : IsWellFormed one_client
one_client-IsWellFormed = Reaches-IsWellFormed one_client-Reaches

abbrev join : Uuid → ClientMessage
join room = record {
  type = MessageType.join_room;
  room_id = room;
  content = [];
  is_typing = none;
  target_user_id = uuid_nil;
  sdp = [];
  sdp_type = [];
  candidate = [];
  sdp_mid = [];
  sdp_m_line_index = none;
}

is_registered : contains 1 one_client.clients ≡ true
unfolding register new_client new_hub contains add lookup
is_registered = refl

reachable_safe_example :
    IsWellFormed one_client × (step (incoming 7 30 1 (join den)) one_client ≢ none)
reachable_safe_example =
    reachable_safe world one_client (incoming 7 30 1 (join den)) one_client-Reaches is_registered

unregister_runs_example : Runs (unregister 30 1 one_client) (IsOut 1 one_client)
unregister_runs_example = unregister_runs 30 1 one_client one_client-IsWellFormed is_registered

abbrev in_den : Hub
in_den = state_of (join_room 1 den one_client)

join_room_authorised_example :
    (info : Room) × (room_with den book ≡ some info)
    × MayEnter info.type den info.owner_id alice book
unfolding register new_client new_hub join_room members next_fails later_faults contains add lookup
    insert
join_room_authorised_example = join_room_authorised 1 den one_client in_den refl refl refl refl

abbrev in_hall : Hub
in_hall = state_of (join_room 1 hall one_client)

-- Alice owns the hall.
join_room_demotes_example :
    role_in hall alice in_hall.world.db
    ≡ (if same_seat hall alice hall alice then some member else role_in hall alice book)
unfolding register new_client new_hub join_room next_fails later_faults contains add lookup
join_room_demotes_example =
    join_room_demotes 1 hall one_client in_hall (room_row hall public) refl refl refl refl refl refl
      hall alice

abbrev gone : Hub
gone = state_of (step (unregistered 30 1) one_client)

late_join_panics_example : step (incoming 7 31 1 (join den)) gone ≡ none
unfolding register new_client new_hub step unregister contains add lookup
late_join_panics_example =
    late_join_panics 30 31 1 7 (join den) one_client gone one_client-IsWellFormed is_registered refl
      refl
