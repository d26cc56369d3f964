-- ===== src/Store.antt =====
-- The PostgreSQL tables of migrations/*.sql, and what a call of the driver does. The statements
-- themselves stand with the repositories. A table is a list of rows; a column that no statement
-- reads (`room_members.joined_at`) is left out.
pub mod Order
pub mod Sort
pub mod Integrity
use chat_back.Prelude.{
  ℕ, ◌/◌, ◌*◌, Bool, true, false, List, [], ◌∷◌, Option, none, some, ◌==◌, ◌&&◌, if◌then◌else◌,
  exists_row, ◌≡◌, ◌⊎◌, inl, inr, refl,
}
use chat_back.Text.{Text}
use chat_back.Domain.{
  Uuid, Time, Error, driver, unavailable, Room, RoomType, MemberRole, RoomInvite, InviteStatus,
  FriendStatus,
}

pub record UserRow : Type 0 where
  pub id : Uuid
  pub username : Text
  pub email : Text
  pub password : Text
  pub tag : Text
  pub display_name : Option Text
  pub avatar_data : Option (List ℕ)
  pub avatar_mime : Option Text
  pub is_admin : Bool
  pub created_at : Time
  pub updated_at : Time

pub record MemberRow : Type 0 where
  pub room_id : Uuid
  pub user_id : Uuid
  pub role : MemberRole

pub record MessageRow : Type 0 where
  pub id : Uuid
  pub room_id : Uuid
  pub user_id : Uuid
  pub username : Text
  pub content : Text
  pub created_at : Time
  pub edited_at : Option Time

pub record InviteRow : Type 0 where
  pub id : Uuid
  pub room_id : Uuid
  pub inviter_id : Uuid
  pub invitee_id : Uuid
  pub status : InviteStatus
  pub created_at : Time

pub record ReadRow : Type 0 where
  pub user_id : Uuid
  pub room_id : Uuid
  pub last_read_at : Time

pub record FriendRow : Type 0 where
  pub id : Uuid
  pub requester_id : Uuid
  pub addressee_id : Uuid
  pub status : FriendStatus
  pub created_at : Time
  pub updated_at : Time

pub record Db : Type 0 where
  pub users : List UserRow
  pub rooms : List Room
  pub room_members : List MemberRow
  pub messages : List MessageRow
  pub room_invites : List InviteRow
  pub room_reads : List ReadRow
  pub friendships : List FriendRow

-- The database and, for each call of the driver to come, whether it fails to reach it.
pub record World : Type 0 where
  pub db : Db
  pub faults : List Bool

-- A world in which every call reaches the database.
abbrev pub online : Db → World
online db = record { db = db; faults = [] }

pub data Result (A : Type 0) : Type 0 where
  ok : A → Result A
  err : Error → Result A

pub Result-cases :
    {A : Type 0} (r : Result A) → ((a : A) × (r ≡ ok a)) ⊎ ((e : Error) × (r ≡ err e))
Result-cases (ok a) = inl (a, refl)
Result-cases (err e) = inr (e, refl)

abbrev pub is_ok : {A : Type 0} → Result A → Bool
is_ok (ok _) = true
is_ok (err _) = false

-- A call returns a value or a Go error, and the world goes on either way.
abbrev pub Query : Type 0 → Type 0
Query A = World → Result A × World

unfoldable pub next_fails : List Bool → Bool
next_fails [] = false
next_fails (b ∷ _) = b

unfoldable pub later_faults : List Bool → List Bool
later_faults [] = []
later_faults (_ ∷ bs) = bs

abbrev pub return : {A : Type 0} → A → Query A
return a w = (ok a, w)

abbrev pub throw : {A : Type 0} → Error → Query A
throw e w = (err e, w)

infixl 5 ◌>>=◌ ◌>>◌
abbrev pub ◌>>=◌ : {A B : Type 0} → Query A → (A → Query B) → Query B
◌>>=◌ m k w = let (r, w') = m w in elim r [ ok a ↦ k a w' | err e ↦ (err e, w') ]

abbrev pub ◌>>◌ : {A B : Type 0} → Query A → Query B → Query B
m >> k = m >>= λ _. k

-- `if cond { return e }`
abbrev pub fail_if : Bool → Error → Query (Unit {0})
fail_if b e w = (if b then err e else ok tt, w)

-- `if !cond { … }`
abbrev pub unless : Bool → Query (Unit {0}) → Query (Unit {0})
unless b m w = if b then (ok tt, w) else m w

-- `if err != nil { return e }`, whatever the error.
abbrev pub replace_err : {A : Type 0} → Error → Query A → Query A
replace_err e m w = let (r, w') = m w in (elim r [ ok a ↦ ok a | err _ ↦ err e ], w')

-- `_ = m`
abbrev pub ignore : {A : Type 0} → Query A → Query (Unit {0})
ignore m w = (ok tt, (m w).1)

-- One statement over the pool: it may not reach the database, and then changes nothing.
abbrev pub call : {A : Type 0} → (Db → Result A × Db) → Query A
call f w =
    if next_fails w.faults
    then (err (driver unavailable), record w { faults = later_faults w.faults })
    else (let (r, db) = f w.db in (r, record { db = db; faults = later_faults w.faults }))

-- A time as `timestamptz` keeps it, to the microsecond: the driver drops the rest.
unfoldable pub timestamptz : Time → Time
timestamptz t = t / 1000 * 1000

-- A `SELECT` leaves the tables alone.
abbrev pub read : {A : Type 0} → (Db → Result A) → Query A
read f = call (λ db. (f db, db))

abbrev pub has_user : Uuid → Db → Bool
has_user id db = exists_row (λ (u : UserRow). u.id == id) db.users

abbrev pub has_room : Uuid → Db → Bool
has_room id db = exists_row (λ (r : Room). r.id == id) db.rooms

-- The row of a user in a room: the primary key of `room_members`.
abbrev pub is_seat : Uuid → Uuid → MemberRow → Bool
is_seat room user m = m.room_id == room && m.user_id == user
