-- ===== src/App/RoomService/Kick.antt =====
-- `KickMember`: who may remove whom, and what is left.
use chat_back.Prelude.{[], Option, none, some, ◌≡◌, ◌≢◌, ◌⊎◌, arith, if◌then◌else◌, ◌↔◌}
use chat_back.Domain.{Uuid, MemberRole, owner, admin, member, Error}
use chat_back.Store.{World, ok, err, next_fails, later_faults}
use chat_back.Postgres.RoomRepo.{role_in}
use chat_back.Postgres.RoomRepo.Seats.{role_of-delete, same_seat}
use chat_back.App.RoomService.{kick_member}

-- Who may remove whom: an owner any other member, an admin the plain members.
abbrev pub MayKick : Option MemberRole → Option MemberRole → Type 0
MayKick requester target =
    ((requester ≡ some owner) × (target ≢ none))
    ⊎ ((requester ≡ some admin) × (target ≡ some member))

kick_member_allowed :
    (room requester target : Uuid) (w : World)
    → (kick_member room requester target w).0 ≡ ok tt
    → (requester ≢ target) × MayKick (role_in room requester w.db) (role_in room target w.db)
unfolding kick_member
kick_member_allowed room requester target w h = ground arith

kick_member_removes :
    (room requester target : Uuid) (w : World)
    → (kick_member room requester target w).0 ≡ ok tt
    → (r u : Uuid)
    → role_in r u (kick_member room requester target w).1.db
      ≡ (if same_seat r u room target then none else role_in r u w.db)
unfolding kick_member
kick_member_removes room requester target w h r u =
    ground (arith, role_of-delete r u room target w.db.room_members)

kick_member_succeeds :
    (room requester target : Uuid) (w : World)
    → w.faults ≡ []
    → requester ≢ target
    → MayKick (role_in room requester w.db) (role_in room target w.db)
    → (kick_member room requester target w).0 ≡ ok tt
unfolding kick_member next_fails later_faults
kick_member_succeeds room requester target w f ne h = ground arith

-- With the database at hand, a kick succeeds exactly when requester and target differ and the
-- requester is an owner of the room and the target in it, or an admin and the target a plain
-- member. It then takes the target out of the room and leaves every other role as it was.
pub kick_member_iff :
    (room requester target : Uuid) (w : World)
    → w.faults ≡ []
    → (((kick_member room requester target w).0 ≡ ok tt)
        ↔ ((requester ≢ target) × MayKick (role_in room requester w.db) (role_in room target w.db)))
      × ((kick_member room requester target w).0 ≡ ok tt
          → (r u : Uuid)
          → role_in r u (kick_member room requester target w).1.db
            ≡ (if same_seat r u room target then none else role_in r u w.db))
kick_member_iff room requester target w f = (
  (
    kick_member_allowed room requester target w,
    λ h. kick_member_succeeds room requester target w f h.0 h.1,
  ),
  kick_member_removes room requester target w,
)

-- Whichever calls do not reach the database, a kick that fails leaves the tables as they were.
pub kick_member_fails :
    (room requester target : Uuid) (w : World) {e : Error}
    → (kick_member room requester target w).0 ≡ err e
    → (kick_member room requester target w).1.db ≡ w.db
unfolding kick_member
kick_member_fails room requester target w h = ground arith
