-- ===== src/App/RoomService/Invites.antt =====
-- Invitations: from `InviteUser` to `AcceptInvite` or `DeclineInvite`.
use chat_back.Prelude.{
  Bool, true, false, List, [], ◌∷◌, Option, none, some, ◌==◌, ◌&&◌, ◌≡◌, ◌≢◌, ◌⊎◌, refl, arith,
  if◌then◌else◌, exists_row, find_row, update_where, Option-cases, inl, inr,
}
use chat_back.Domain.{
  Uuid, Time, member, Room, is_private, RoomInvite, InviteStatus, pending, accepted, declined,
  is_pending, driver, unavailable,
}
use chat_back.Store.{
  online, World, ok, err, is_ok, Db, next_fails, later_faults, InviteRow, has_room, has_user,
}
use chat_back.Postgres.RoomRepo.{role_in, room_with}
use chat_back.Postgres.RoomRepo.Seats.{
  role_of-update, role_of-cons, role_of-same, exists-role_of, same_seat,
}
use chat_back.Postgres.InviteRepo.{full_invite, is_open_invite}
use chat_back.App.RoomService.{new_invite, accept_invite, decline_invite, invite_user}

-- The status of an invite in the table.
unfoldable pub status_of : Uuid → List InviteRow → Option InviteStatus
status_of id [] = none
status_of id (r ∷ rs) = let rest = status_of id rs in if r.id == id then some r.status else rest

abbrev is_open : Option InviteStatus → Bool
is_open none = false
is_open (some s) = is_pending s

status_of-close :
    (id j : Uuid) (status : InviteStatus) (rows : List InviteRow)
    → status_of j (update_where (is_open_invite id) (λ r. record r { status = status }) rows)
      ≡ (if j == id && is_open (status_of j rows) then some status else status_of j rows)
unfolding status_of
status_of-close id j status [] = ground arith
status_of-close id j status (r ∷ rows) = ground (arith, status_of-close id j status rows)

exists_open-close :
    (id : Uuid) (status : InviteStatus) (rows : List InviteRow)
    → is_pending status ≡ false
    → exists_row
        (is_open_invite id)
        (update_where (is_open_invite id) (λ r. record r { status = status }) rows)
      ≡ false
exists_open-close id status [] h = refl
exists_open-close id status (r ∷ rows) h = ground (arith, exists_open-close id status rows h)

-- An invite that is found and accepted was addressed to the user and still open. It makes the user a member of its
-- room, with the role `member` whatever the role was before, and touches no other role.
pub accept_invite_effect :
    (id user : Uuid) (w : World) (i : RoomInvite)
    → full_invite id w.db ≡ some i
    → (accept_invite id user w).0 ≡ ok tt
    → (i.invitee_id ≡ user)
      × (exists_row (is_open_invite id) w.db.room_invites ≡ true)
      × ((r u : Uuid)
          → role_in r u (accept_invite id user w).1.db
            ≡ (if same_seat r u i.room_id user then some member else role_in r u w.db))
unfolding accept_invite
accept_invite_effect id user w i e h = (
  ground arith,
  ground arith,
  λ r u. ground (
    arith,
    exists-role_of i.room_id user w.db.room_members,
    role_of-update r u i.room_id user member w.db.room_members,
    role_of-cons r u (record { room_id = i.room_id; user_id = user; role = member })
        w.db.room_members,
    role_of-same r u i.room_id user w.db.room_members,
  ),
)

-- An attempt to accept an invite, on any branch, changes no invite's status but that of the invite
-- itself, and that only from pending to accepted.
pub accept_invite-status :
    (id user j : Uuid) (w : World)
    → (status_of j (accept_invite id user w).1.db.room_invites ≡ status_of j w.db.room_invites)
      ⊎ ((j ≡ id)
          × (status_of j w.db.room_invites ≡ some pending)
          × (status_of j (accept_invite id user w).1.db.room_invites ≡ some accepted))
unfolding accept_invite
accept_invite-status id user j w = ground (arith, status_of-close id j accepted w.db.room_invites)

-- An attempt to decline an invite, on any branch, changes no invite's status but that of the invite
-- itself, and that only from pending to declined.
pub decline_invite-status :
    (id user j : Uuid) (w : World)
    → (status_of j (decline_invite id user w).1.db.room_invites ≡ status_of j w.db.room_invites)
      ⊎ ((j ≡ id)
          × (status_of j w.db.room_invites ≡ some pending)
          × (status_of j (decline_invite id user w).1.db.room_invites ≡ some declined))
unfolding decline_invite
decline_invite-status id user j w = ground (arith, status_of-close id j declined w.db.room_invites)

-- An invite that is not open cannot be accepted, by anyone and whichever calls reach the database.
closed_invite_refused :
    (id user : Uuid) (w : World)
    → exists_row (is_open_invite id) w.db.room_invites ≡ false
    → (is_ok (accept_invite id user w).0 ≡ false) × ((accept_invite id user w).1.db ≡ w.db)
unfolding accept_invite
closed_invite_refused id user w h = (ground arith, ground arith)

-- The unique key of the table: an invite to the room that the user has, open or not.
abbrev pub has_invite : Uuid → Uuid → List InviteRow → Bool
has_invite room user rows =
    exists_row (λ (r : InviteRow). r.room_id == room && r.invitee_id == user) rows

has_invite-close :
    (id room user : Uuid) (status : InviteStatus) (rows : List InviteRow)
    → has_invite room user
        (update_where (is_open_invite id) (λ r. record r { status = status }) rows)
      ≡ has_invite room user rows
has_invite-close id room user status [] = refl
has_invite-close id room user status (r ∷ rows) =
    ground (arith, has_invite-close id room user status rows)

has_invite-found :
    (id : Uuid) (rows : List InviteRow) (r : InviteRow)
    → find_row (λ (x : InviteRow). x.id == id) rows ≡ some r
    → has_invite r.room_id r.invitee_id rows ≡ true
has_invite-found id [] r h = absurd (ground arith)
has_invite-found id (x ∷ rows) r h = ground (arith, has_invite-found id rows r)

full_invite-has_invite :
    (id : Uuid) (db : Db) (i : RoomInvite)
    → full_invite id db ≡ some i
    → has_invite i.room_id i.invitee_id db.room_invites ≡ true
unfolding full_invite
full_invite-has_invite id db i h =
    elim (Option-cases (find_row (λ (x : InviteRow). x.id == id) db.room_invites)) [
      | inl absent ↦ absurd (ground arith)
      | inr (r, found) ↦ ground (arith, has_invite-found id db.room_invites r)
    ]

-- A user who has an invite to a room cannot be invited to it again, even if the invite is closed.
invited_refused :
    (new_id : Uuid) (now : Time) (room inviter user : Uuid) (w : World)
    → has_invite room user w.db.room_invites ≡ true
    → is_ok (invite_user new_id now room inviter user w).0 ≡ false
unfolding invite_user
invited_refused new_id now room inviter user w h = ground arith

-- Accepting is not atomic: if the third of its calls, and not the first two, fails to reach the
-- database, at an open invite to the user, the call fails and the roles in all rooms are as before,
-- so that who had none in the room has none. The invite is spent all the same: on the tables that it
-- leaves nobody can accept it, and nobody can send the user another to that room.
pub accept_invite_lost :
    (id user : Uuid) (w : World) (i : RoomInvite) (rest : List Bool)
    → full_invite id w.db ≡ some i
    → i.invitee_id ≡ user
    → exists_row (is_open_invite id) w.db.room_invites ≡ true
    → w.faults ≡ false ∷ false ∷ true ∷ rest
    → (let w' = (accept_invite id user w).1 in
        ((accept_invite id user w).0 ≡ err (driver unavailable))
        × ((r u : Uuid) → role_in r u w'.db ≡ role_in r u w.db)
        × ((u : Uuid) → is_ok (accept_invite id u (online w'.db)).0 ≡ false)
        × ((new_id inviter : Uuid) (now : Time)
            → is_ok (invite_user new_id now i.room_id inviter user (online w'.db)).0 ≡ false))
unfolding accept_invite next_fails later_faults
accept_invite_lost id user w i rest e own still f =
    let w' = (accept_invite id user w).1 in
    let closed : exists_row (is_open_invite id) w'.db.room_invites ≡ false =
      ground (arith, exists_open-close id accepted w.db.room_invites) in
    let has : has_invite i.room_id user w'.db.room_invites ≡ true = ground (
      arith,
      has_invite-close id i.room_id user accepted w.db.room_invites,
      full_invite-has_invite id w.db i,
    ) in
    (
      ground arith,
      λ r u. ground arith,
      λ u. (closed_invite_refused id u (online w'.db) closed).0,
      λ new_id inviter now. invited_refused new_id now i.room_id inviter user (online w'.db) has,
    )

abbrev private_room : Option Room → Bool
private_room none = false
private_room (some r) = is_private r.type

abbrev owns : Option Room → Uuid → Bool
owns none user = false
owns (some r) user = r.owner_id == user

-- The conditions under which `InviteUser` goes through.
abbrev pub MayInvite : Uuid → Uuid → Db → Type 0
MayInvite room inviter db =
    (private_room (room_with room db) ≡ true)
    × ((owns (room_with room db) inviter ≡ true) ⊎ (role_in room inviter db ≢ none))

-- An invite that goes out is for a private room, by its owner or one of its members. It stands in
-- the table as pending, and the table's other rows, the rooms and the members are as before.
pub invite_user_effect :
    (new_id : Uuid) (now : Time) (room inviter invitee : Uuid) (w : World) {i : RoomInvite}
    → (invite_user new_id now room inviter invitee w).0 ≡ ok i
    → MayInvite room inviter w.db
      × (status_of new_id (invite_user new_id now room inviter invitee w).1.db.room_invites
          ≡ some pending)
      × (i.room_id ≡ room)
      × (i.invitee_id ≡ invitee)
      × ((j : Uuid)
          → j ≢ new_id
          → status_of j (invite_user new_id now room inviter invitee w).1.db.room_invites
            ≡ status_of j w.db.room_invites)
      × ((invite_user new_id now room inviter invitee w).1.db.room_members ≡ w.db.room_members)
unfolding invite_user status_of
invite_user_effect new_id now room inviter invitee w h = (
  (ground arith, ground (arith, exists-role_of room inviter w.db.room_members)),
  ground arith,
  ground arith,
  ground arith,
  λ j ne. ground arith,
  ground arith,
)

-- With the database at hand it goes through whenever the inviter may invite, the id is fresh,
-- both users exist and the invitee has no invite to the room, closed ones included.
pub invite_user_succeeds :
    (new_id : Uuid) (now : Time) (room inviter invitee : Uuid) (db : Db)
    → MayInvite room inviter db
    → has_room room db ≡ true
    → has_user inviter db ≡ true
    → has_user invitee db ≡ true
    → exists_row (λ (r : InviteRow). r.id == new_id) db.room_invites ≡ false
    → exists_row (λ (r : InviteRow). r.room_id == room && r.invitee_id == invitee) db.room_invites
      ≡ false
    → (invite_user new_id now room inviter invitee (online db)).0
      ≡ ok (new_invite new_id now room inviter invitee)
unfolding invite_user next_fails later_faults
invite_user_succeeds new_id now room inviter invitee db may hr hu hv fresh one =
    ground (arith, exists-role_of room inviter db.room_members)
