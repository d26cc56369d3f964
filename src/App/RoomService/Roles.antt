-- ===== src/App/RoomService/Roles.antt =====
-- `SetRole`: who may change a role, and to what.
use chat_back.Prelude.{true, [], Option, none, some, ◌≡◌, ◌≢◌, ◌⊎◌, arith, if◌then◌else◌, ◌↔◌}
use chat_back.Domain.{Uuid, MemberRole, owner, Room}
use chat_back.Store.{World, ok, Db, next_fails, later_faults}
use chat_back.Postgres.RoomRepo.{role_in, room_with, valid_role}
use chat_back.Postgres.RoomRepo.Seats.{role_of-update, exists-role_of, same_seat, role_of-same}
use chat_back.App.RoomService.{set_role}

-- The room of `rooms.owner_id`.
abbrev pub OwnsRoom : Option Room → Uuid → Type 0
OwnsRoom none user = ⊥
OwnsRoom (some r) user = r.owner_id ≡ user

-- Who may set roles: a member who is an owner by role, or whom the room's row names as its owner.
abbrev pub MaySetRole : Uuid → Uuid → Db → Type 0
MaySetRole room requester db =
    (role_in room requester db ≢ none)
    × (room_with room db ≢ none)
    × ((role_in room requester db ≡ some owner) ⊎ OwnsRoom (room_with room db) requester)

set_role_allowed :
    (room requester target : Uuid) (role : MemberRole) (w : World)
    → (set_role room requester target role w).0 ≡ ok tt
    → (role ≢ owner)
      × (valid_role role ≡ true)
      × MaySetRole room requester w.db
      × (role_in room target w.db ≢ none)
unfolding set_role
set_role_allowed room requester target role w h =
    ground (arith, exists-role_of room target w.db.room_members)

set_role_effect :
    (room requester target : Uuid) (role : MemberRole) (w : World)
    → (set_role room requester target role w).0 ≡ ok tt
    → (r u : Uuid)
    → role_in r u (set_role room requester target role w).1.db
      ≡ (if same_seat r u room target then some role else role_in r u w.db)
unfolding set_role
set_role_effect room requester target role w h r u = ground (
  arith,
  exists-role_of room target w.db.room_members,
  role_of-same r u room target w.db.room_members,
  role_of-update r u room target role w.db.room_members,
)

set_role_succeeds :
    (room requester target : Uuid) (role : MemberRole) (w : World)
    → w.faults ≡ []
    → role ≢ owner
    → valid_role role ≡ true
    → MaySetRole room requester w.db
    → role_in room target w.db ≢ none
    → (set_role room requester target role w).0 ≡ ok tt
unfolding set_role next_fails later_faults
set_role_succeeds room requester target role w f ne v m t =
    ground (arith, exists-role_of room target w.db.room_members)

-- With the database at hand, `SetRole` succeeds exactly when the new role is admin or member, the
-- requester is a member who is the owner by role or by the room's row, and the target is a
-- member. It then sets that one role.
pub set_role_iff :
    (room requester target : Uuid) (role : MemberRole) (w : World)
    → w.faults ≡ []
    → (((set_role room requester target role w).0 ≡ ok tt) ↔ (
        (role ≢ owner)
        × (valid_role role ≡ true)
        × MaySetRole room requester w.db
        × (role_in room target w.db ≢ none)))
      × ((set_role room requester target role w).0 ≡ ok tt
          → (r u : Uuid)
          → role_in r u (set_role room requester target role w).1.db
            ≡ (if same_seat r u room target then some role else role_in r u w.db))
set_role_iff room requester target role w f = (
  (
    set_role_allowed room requester target role w,
    λ h. set_role_succeeds room requester target role w f h.0 h.1 h.2 h.3,
  ),
  set_role_effect room requester target role w,
)

-- No call of `SetRole`, on any branch, makes an owner of someone who was none.
pub set_role-no_new_owner :
    (room requester target : Uuid) (role : MemberRole) (w : World) (r u : Uuid)
    → role_in r u (set_role room requester target role w).1.db ≡ some owner
    → role_in r u w.db ≡ some owner
unfolding set_role
set_role-no_new_owner room requester target role w r u h =
    ground (arith, role_of-update r u room target role w.db.room_members)
