-- ===== src/Http/Rooms/Answers.antt =====
-- The statuses that the room handlers answer with.
use chat_back.Prelude.{
  ℕ, true, false, [], ◌∷◌, Option, none, some, ◌==◌, ◌≡◌, ◌≢◌, inl, inr, arith, if◌then◌else◌,
  is_some, Option-cases, find_row-holds, ==_iff,
}
use chat_back.Text.{Text, trim_space, is_empty}
use chat_back.Domain.{Uuid, Room, MemberRole, owner, admin, member, other_role}
use chat_back.Store.{World, next_fails, later_faults}
use chat_back.Postgres.RoomRepo.{role_in, room_with}
use chat_back.Postgres.RoomRepo.Seats.{exists-role_of}
use chat_back.Ws.Protocol.{MessageType, blank}
use chat_back.Http.{Caller, given}
use chat_back.Http.Rooms.{kick_member, set_member_role, list_room_invites, rename}

-- What a kick of another user is answered by, from the two roles.
abbrev pub kick_status : Option MemberRole → Option MemberRole → ℕ
kick_status none target = 403
kick_status (some requester) none = 404
kick_status (some owner) (some target) = 204
kick_status (some admin) (some member) = 204
kick_status (some requester) (some target) = 403

abbrev pub owner_status : Caller → Option Room → ℕ
owner_status caller none = 500
owner_status caller (some r) = if r.owner_id == caller.user_id then 200 else 403

-- With the database at hand, a kick is answered by 400 if caller and target are one user, by 403
-- if the caller is not in the room, by 404 if the target is not, by 204 if the caller may kick the
-- target, and by 403 otherwise: never by 500.
pub kick_member_answers :
    (caller : Caller) (room target : Uuid) (w : World)
    → w.faults ≡ []
    → (kick_member caller (given room) (given target) w).0.status ≡ (
        if caller.user_id == target
        then 400
        else kick_status (role_in room caller.user_id w.db) (role_in room target w.db))
unfolding kick_member next_fails later_faults
kick_member_answers caller room target w f = ground arith

-- With the database at hand, giving a member of the room a role that the program does not know is
-- answered by 500, and not as a bad request, if the caller may set roles there. Nothing changes.
pub set_member_role_unknown :
    (caller : Caller) (room target : Uuid) (t : Text) (w : World)
    → w.faults ≡ []
    → role_in room caller.user_id w.db ≡ some owner
    → is_some (room_with room w.db) ≡ true
    → role_in room target w.db ≢ none
    → ((set_member_role caller (given room) (given target) (given (other_role t)) w).0.status ≡ 500)
      × ((set_member_role caller (given room) (given target) (given (other_role t)) w).1.db ≡ w.db)
unfolding set_member_role next_fails later_faults
set_member_role_unknown caller room target t w f own found there = (
  ground (arith, exists-role_of room target w.db.room_members),
  ground (arith, exists-role_of room target w.db.room_members),
)

-- With the database at hand, the invites of a room are answered by 200 to its owner, by 403 to
-- anybody else, and by 500 if there is no such room.
pub list_room_invites_answers :
    (caller : Caller) (room : Uuid) (w : World)
    → w.faults ≡ []
    → (list_room_invites caller (given room) w).0.status ≡ owner_status caller (room_with room w.db)
unfolding list_room_invites next_fails later_faults
list_room_invites_answers caller room w f = ground arith

rename_publishes_new :
    (caller : Caller) (room : Uuid) (name : Text) (w : World)
    → (rename caller (given room) (given name) w).0.status ≡ 200
    → ((rename caller (given room) (given name) w).0.published
        ≡ (room, record (blank MessageType.room_renamed) { room_id = room; name = trim_space name })
          ∷ [])
      × (is_empty (trim_space name) ≡ false)
unfolding rename
rename_publishes_new caller room name w h = elim (Option-cases (room_with room w.db)) [
  | inl e ↦ absurd (ground arith)
  | inr (r, e) ↦
      let same : r.id ≡ room =
        (==_iff r.id room).0 (find_row-holds (λ (r : Room). r.id == room) w.db.rooms r e) in
      (ground arith, ground arith)
]

-- Whichever calls do not reach the database, renaming a room publishes one frame, with the room and the trimmed
-- name, if it is answered by 200, and otherwise nothing, and then the tables are as they were.
pub rename_publishes :
    (caller : Caller) (room : Uuid) (name : Text) (w : World)
    → ((rename caller (given room) (given name) w).0.status ≡ 200
        → ((rename caller (given room) (given name) w).0.published
            ≡ (
              room,
              record (blank MessageType.room_renamed) { room_id = room; name = trim_space name },
            )
              ∷ [])
          × (is_empty (trim_space name) ≡ false))
      × ((rename caller (given room) (given name) w).0.status ≢ 200
          → ((rename caller (given room) (given name) w).0.published ≡ [])
            × ((rename caller (given room) (given name) w).1.db ≡ w.db))
unfolding rename
rename_publishes caller room name w =
    (rename_publishes_new caller room name w, λ h. (ground arith, ground arith))
