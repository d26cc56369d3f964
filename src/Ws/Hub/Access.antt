-- ===== src/Ws/Hub/Access.antt =====
-- Who gets into a room over the WebSocket, and what joining does to the member's role.
use chat_back.Prelude.{
  ◌≡◌, ◌≢◌, ◌⊎◌, refl, arith, ap, ◌∙◌, Bool, true, false, [], none, some, ◌==◌, if◌then◌else◌,
  contains, is_some, exists-find,
}
use chat_back.Domain.{Uuid, Room, RoomType, public, private, dm, voice, other, member}
use chat_back.Store.{World, Result, ok, err, Db, has_user, next_fails, later_faults}
use chat_back.Postgres.RoomRepo.{role_in, room_with, upsert_member}
use chat_back.Postgres.RoomRepo.Seats.{exists-role_of, same_seat, role_of-upsert}
use chat_back.App.RoomService
use chat_back.Ws.Protocol.{ErrorText, literal}
use chat_back.Ws.State.{ClientId, Hub, members, send_error, error_message}
use chat_back.Ws.State.Sends.{try_send-IsQuiet}
use chat_back.Ws.Rooms.{
  join_room, after_lookup, after_entry, Entry, enter, refuse, put_in, room_joined, admission,
}
use chat_back.Ws.Hub.WellFormed.{members-quiet}

-- Who may enter a room of a type: anyone an open one, its members a DM, its owner and its members
-- a private room. (A type that the schema does not know would be open.)
abbrev pub MayEnter : RoomType → Uuid → Uuid → Uuid → Db → Type 0
MayEnter public room owner_id user db = Unit {0}
MayEnter voice room owner_id user db = Unit {0}
MayEnter dm room owner_id user db = role_in room user db ≢ none
MayEnter private room owner_id user db = (owner_id ≡ user) ⊎ (role_in room user db ≢ none)
MayEnter (other _) room owner_id user db = Unit {0}

admission_sound :
    (t : RoomType) (room : Uuid) (info : Room) (user : Uuid) (w : World)
    → (admission t room info user w).0 ≡ enter
    → MayEnter t room info.owner_id user w.db
unfolding RoomService.is_member
admission_sound public room info user w h = tt
admission_sound voice room info user w h = tt
admission_sound dm room info user w h = ground (arith, exists-role_of room user w.db.room_members)
admission_sound private room info user w h =
    ground (arith, exists-role_of room user w.db.room_members)
admission_sound (other x) room info user w h = tt

-- What the database says of a room that is looked up.
get_room_finds :
    (room : Uuid) (info : Room) (w : World)
    → (RoomService.get_room room w).0 ≡ ok info
    → (room_with room w.db ≡ some info) × ((RoomService.get_room room w).1.db ≡ w.db)
unfolding RoomService.get_room
get_room_finds room info w h = (ground arith, ground arith)

-- A refused client is in no more rooms.
after_entry_refused :
    (c : ClientId) (room : Uuid) (text : ErrorText) (h h' : Hub)
    → after_entry c room (refuse text) h ≡ some h'
    → members room h' ≡ members room h
unfolding send_error
after_entry_refused c room text h h' e =
    members-quiet h h' room (try_send-IsQuiet c (error_message "forbidden" text) h h' e)

after_entry_entered :
    (c : ClientId) (room : Uuid) (entry : Entry) (h h' : Hub)
    → after_entry c room entry h ≡ some h'
    → contains c (members room h) ≡ false
    → contains c (members room h') ≡ true
    → entry ≡ enter
after_entry_entered c room enter h h' e out inside = refl
after_entry_entered c room (refuse text) h h' e out inside =
    absurd (ground (arith, after_entry_refused c room text h h' e))

after_lookup_entered :
    (c : ClientId) (room : Uuid) (r : Result Room) (h h' : Hub)
    → after_lookup c room r h ≡ some h'
    → contains c (members room h) ≡ false
    → contains c (members room h') ≡ true
    → (info : Room) × (r ≡ ok info)
      × MayEnter info.type room info.owner_id (h.heap c).user_id h.world.db
unfolding send_error members
after_lookup_entered c room (err x) h h' e out inside = absurd (
    ground (
      arith,
      members-quiet h h' room
          (try_send-IsQuiet c (error_message "room_not_found" (literal "room not found")) h h' e),
    ))
after_lookup_entered c room (ok info) h h' e out inside =
    let (entry, w) = admission info.type room info (h.heap c).user_id h.world in
    (
      info,
      refl,
      admission_sound info.type room info (h.heap c).user_id h.world
          (after_entry_entered c room entry (record h { world = w }) h' e out inside),
    )

-- A client that a `join_room` takes into a room was in it before, or the room exists and the
-- client's user may enter it: anyone an open room, a participant a DM, its owner or a member a
-- private room. Whatever else the database answers keeps the client out.
pub join_room_authorised :
    (c : ClientId) (room : Uuid) (h h' : Hub)
    → join_room c room h ≡ some h'
    → contains room (h.heap c).rooms ≡ false
    → contains c (members room h) ≡ false
    → contains c (members room h') ≡ true
    → (info : Room) × (room_with room h.world.db ≡ some info)
      × MayEnter info.type room info.owner_id (h.heap c).user_id h.world.db
unfolding join_room members
join_room_authorised c room h h' e out away inside =
    let (r, w) = RoomService.get_room room h.world in
    let (info, e', allowed) =
      after_lookup_entered c room r (record h { world = w }) h' (rw out at e) away inside in
    let (found, same) = get_room_finds room info h.world e' in (info, found, rw same at allowed)

-- The rooms that `joinRoom` signs the client's user up for.
abbrev pub is_open : RoomType → Bool
is_open public = true
is_open voice = true
is_open _ = false

admission_signs_up :
    (t : RoomType) (room : Uuid) (info : Room) (user : Uuid) (w : World)
    → is_open t ≡ true
    → admission t room info user w ≡ (enter, (RoomService.add_member room user member w).1)
admission_signs_up public room info user w h = refl
admission_signs_up voice room info user w h = refl
admission_signs_up dm room info user w h = absurd (ground arith)
admission_signs_up private room info user w h = absurd (ground arith)
admission_signs_up (other x) room info user w h = absurd (ground arith)

upsert_succeeds :
    (room user : Uuid) (db : Db)
    → is_some (room_with room db) ≡ true
    → has_user user db ≡ true
    → (upsert_member room user member db).0 ≡ ok tt
unfolding upsert_member
upsert_succeeds room user db found known =
    ground (arith, exists-find (λ (r : Room). r.id == room) db.rooms)

signed_up :
    (r u room user : Uuid) (w : World)
    → w.faults ≡ []
    → is_some (room_with room w.db) ≡ true
    → has_user user w.db ≡ true
    → role_in r u (RoomService.add_member room user member w).1.db
      ≡ (if same_seat r u room user then some member else role_in r u w.db)
unfolding RoomService.add_member next_fails
signed_up r u room user w f found known =
    rw f (role_of-upsert r u room user member w.db (upsert_succeeds room user w.db found known))

after_entry-world :
    (c : ClientId) (room : Uuid) (h h' : Hub)
    → after_entry c room enter h ≡ some h'
    → h'.world ≡ h.world
unfolding put_in
after_entry-world c room h h' e =
    let h₁ = put_in c room h in (try_send-IsQuiet c (room_joined room h₁) h₁ h' e).world

get_room_online :
    (room : Uuid) (info : Room) (w : World)
    → w.faults ≡ []
    → room_with room w.db ≡ some info
    → RoomService.get_room room w ≡ (ok info, w)
unfolding RoomService.get_room next_fails later_faults
get_room_online room info w f e = ground arith

-- Joining a public room or a voice room over the WebSocket, with the database at hand, sets the
-- user's role in it to `member` whatever the role was: an owner or an admin who opens the room
-- is demoted. No other role changes.
pub join_room_demotes :
    (c : ClientId) (room : Uuid) (h h' : Hub) (info : Room)
    → join_room c room h ≡ some h'
    → contains room (h.heap c).rooms ≡ false
    → h.world.faults ≡ []
    → room_with room h.world.db ≡ some info
    → is_open info.type ≡ true
    → has_user (h.heap c).user_id h.world.db ≡ true
    → (r u : Uuid)
    → role_in r u h'.world.db
      ≡ (if same_seat r u room (h.heap c).user_id then some member else role_in r u h.world.db)
unfolding join_room
join_room_demotes c room h h' info e out f found open_type known r u =
    let user = (h.heap c).user_id in
    let w' = (RoomService.add_member room user member h.world).1 in
    let entered : after_entry c room enter (record h { world = w' }) ≡ some h' =
      rw
        (
          out,
          get_room_online room info h.world f found,
          admission_signs_up info.type room info user h.world open_type,
        )
        at e in
    ap (λ (w : World). role_in r u w.db)
      (after_entry-world c room (record h { world = w' }) h' entered)
    ∙ signed_up r u room user h.world f (rw found refl) known
