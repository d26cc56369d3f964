-- ===== src/App/RoomService/Rooms.antt =====
-- `Create`, `Rename` and `Delete`: rooms come and go, and take with them what refers to them.
use chat_back.Prelude.{
  Bool, true, false, List, [], ◌∷◌, Option, none, some, ◌==◌, ◌&&◌, ◌≡◌, ◌≢◌, ◌⊎◌, arith,
  if◌then◌else◌, is_some, exists_row, exists-find, exists-delete, find_row, update_where,
}
use chat_back.Text.{Text, trim_space, is_empty, has_nul}
use chat_back.Domain.{Uuid, owner, Room, RoomType, Error}
use chat_back.Store.{
  World, ok, err, Db, next_fails, later_faults, InviteRow, MessageRow, ReadRow, has_room, has_user,
}
use chat_back.Postgres.RoomRepo.{role_in, room_with, valid_type}
use chat_back.Postgres.RoomRepo.Seats.{
  role_of-update, role_of-cons, exists-role_of, same_seat, role_of-same, role_of-delete_room,
}
use chat_back.App.RoomService.{create, rename, delete}
use chat_back.App.RoomService.Roles.{OwnsRoom}

abbrev rename_found : Text → Option Room → Option Room
rename_found name none = none
rename_found name (some r) = some (record r { name = name })

has_room-room_with : (id : Uuid) (db : Db) → has_room id db ≡ is_some (room_with id db)
has_room-room_with id db = exists-find (λ (r : Room). r.id == id) db.rooms

abbrev named : Text → Room → Room
named name r = record r { name = name }

room_with-rename :
    (other room : Uuid) (name : Text) (rooms : List Room)
    → find_row
        (λ (r : Room). r.id == other)
        (update_where (λ (r : Room). r.id == room) (named name) rooms)
      ≡ (if other == room
          then rename_found name (find_row (λ (r : Room). r.id == other) rooms)
          else find_row (λ (r : Room). r.id == other) rooms)
room_with-rename other room name [] = ground arith
room_with-rename other room name (r ∷ rooms) =
    ground (arith, room_with-rename other room name rooms)

-- With the database at hand, a room with a name that is not blank and has no U+0000, a known type
-- and a known owner is created under a fresh id. Its name is the trimmed one, its `created_at` is the zero time,
-- the creator is its owner by row and by role, and no other role changes.
pub create_effect :
    (new_id : Uuid) (name : Text) (type : RoomType) (creator : Uuid) (w : World)
    → w.faults ≡ []
    → is_empty (trim_space name) ≡ false
    → has_nul (trim_space name) ≡ false
    → valid_type type ≡ true
    → has_user creator w.db ≡ true
    → has_room new_id w.db ≡ false
    → let room : Room = record {
      id = new_id;
      name = trim_space name;
      type = type;
      owner_id = creator;
      created_at = 0;
    } in
      ((create new_id name type creator w).0 ≡ ok room)
      × (room_with new_id (create new_id name type creator w).1.db ≡ some room)
      × ((r u : Uuid)
          → role_in r u (create new_id name type creator w).1.db
            ≡ (if same_seat r u new_id creator then some owner else role_in r u w.db))
unfolding create next_fails later_faults
create_effect new_id name type creator w f n clean t u fresh = (
  ground arith,
  ground arith,
  λ r v. ground (
    arith,
    exists-role_of new_id creator w.db.room_members,
    role_of-update r v new_id creator owner w.db.room_members,
    role_of-cons r v (record { room_id = new_id; user_id = creator; role = owner })
        w.db.room_members,
    role_of-same r v new_id creator w.db.room_members,
  ),
)

-- With the database at hand, a room that is found is renamed by a site admin or its owner, to the
-- trimmed name, if that is not blank and has no U+0000. It is then found under that name, its other fields as
-- before, and every other id leads to the room that it led to.
pub rename_succeeds :
    (room requester : Uuid) (name : Text) (is_admin : Bool) (w : World) (r : Room)
    → w.faults ≡ []
    → is_empty (trim_space name) ≡ false
    → has_nul (trim_space name) ≡ false
    → room_with room w.db ≡ some r
    → (is_admin ≡ true) ⊎ (r.owner_id ≡ requester)
    → ((rename room requester name is_admin w).0 ≡ ok (record r { name = trim_space name }))
      × (room_with room (rename room requester name is_admin w).1.db
          ≡ some (record r { name = trim_space name }))
      × ((other : Uuid)
          → other ≢ room
          → room_with other (rename room requester name is_admin w).1.db ≡ room_with other w.db)
unfolding rename next_fails later_faults
rename_succeeds room requester name is_admin w r f n clean e may = (
  ground (arith, has_room-room_with room w.db),
  ground (
    arith,
    has_room-room_with room w.db,
    room_with-rename room room (trim_space name) w.db.rooms,
  ),
  λ other ne. ground (
    arith,
    has_room-room_with room w.db,
    room_with-rename other room (trim_space name) w.db.rooms,
  ),
)

-- A renaming that succeeds, whichever calls do not reach the database, had a name that is not blank, a room
-- that is there, and a site admin or the room's owner behind it; one that fails changes nothing.
pub rename_sound :
    (room requester : Uuid) (name : Text) (is_admin : Bool) (w : World)
    → ((r : Room)
        → (rename room requester name is_admin w).0 ≡ ok r
        → (is_empty (trim_space name) ≡ false)
          × (room_with room w.db ≢ none)
          × ((is_admin ≡ true) ⊎ OwnsRoom (room_with room w.db) requester))
      × ((e : Error)
          → (rename room requester name is_admin w).0 ≡ err e
          → (rename room requester name is_admin w).1.db ≡ w.db)
unfolding rename
rename_sound room requester name is_admin w = (λ r h. ground arith, λ e h. ground arith)

-- Nothing refers to a room that is not there.
pub record IsGone (room : Uuid) (db : Db) : Type 0 where
  pub no_room : has_room room db ≡ false
  pub no_member : (user : Uuid) → role_in room user db ≡ none
  pub no_message : exists_row (λ (m : MessageRow). m.room_id == room) db.messages ≡ false
  pub no_invite : exists_row (λ (i : InviteRow). i.room_id == room) db.room_invites ≡ false
  pub no_read : exists_row (λ (r : ReadRow). r.room_id == room) db.room_reads ≡ false

delete_leaves_nothing :
    (room requester : Uuid) (is_admin : Bool) (w : World)
    → (delete room requester is_admin w).0 ≡ ok tt
    → IsGone room (delete room requester is_admin w).1.db
unfolding delete
delete_leaves_nothing room requester is_admin w h = record {
  no_room = ground (arith, exists-delete (λ (r : Room). r.id == room) w.db.rooms);
  no_member = λ user. ground (arith, role_of-delete_room room user room w.db.room_members);
  no_message = ground (arith, exists-delete (λ (m : MessageRow). m.room_id == room) w.db.messages);
  no_invite =
      ground (arith, exists-delete (λ (i : InviteRow). i.room_id == room) w.db.room_invites);
  no_read = ground (arith, exists-delete (λ (r : ReadRow). r.room_id == room) w.db.room_reads);
}

-- A deletion that succeeds is by a site admin or by the owner of the room, and leaves nothing
-- that refers to the room; the roles in other rooms are as before.
pub delete_effect :
    (room requester : Uuid) (is_admin : Bool) (w : World)
    → (delete room requester is_admin w).0 ≡ ok tt
    → ((is_admin ≡ true)
        ⊎ (exists_row (λ (r : Room). r.id == room && r.owner_id == requester) w.db.rooms ≡ true))
      × IsGone room (delete room requester is_admin w).1.db
      × ((r u : Uuid)
          → r ≢ room
          → role_in r u (delete room requester is_admin w).1.db ≡ role_in r u w.db)
unfolding delete
delete_effect room requester is_admin w h = (
  ground arith,
  delete_leaves_nothing room requester is_admin w h,
  λ r u ne. ground (arith, role_of-delete_room r u room w.db.room_members),
)
