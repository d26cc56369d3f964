-- ===== src/App/Sound.antt =====
-- What the services keep true of the tables and no constraint of the database does: a room that is
-- no DM has a name, nobody is asked to be their own friend, no message is empty, and no display
-- name is longer than 32 characters.
pub mod Statements
pub mod Services
use chat_back.Prelude.{
  ℕ, ◌≤◌, ◌≡◌, ◌≢◌, ◌⊎◌, Bool, true, false, List, [], ◌∷◌, Option, none, some, All, arith, refl,
  length, if◌then◌else◌, update_where, Bool-cases, inl, inr,
}
use chat_back.Text.{Text, is_empty}
use chat_back.Domain.{Uuid, Error, Room}
use chat_back.Store.{
  UserRow, MessageRow, FriendRow, Db, World, Query, Result, Result-cases, ok, err, is_ok, call,
  read, return, throw, fail_if, unless, replace_err, ignore, ◌>>=◌, ◌>>◌, next_fails, later_faults,
}
use chat_back.Postgres.FriendRepo.{is_dm, in_transaction}

abbrev pub IsNamed : Room → Type 0
IsNamed r = (is_dm r.type ≡ true) ⊎ (is_empty r.name ≡ false)

abbrev pub IsApart : FriendRow → Type 0
IsApart f = f.requester_id ≢ f.addressee_id

abbrev pub IsWritten : MessageRow → Type 0
IsWritten m = is_empty m.content ≡ false

abbrev pub IsBrief : Option Text → Type 0
IsBrief none = Unit {0}
IsBrief (some t) = length t ≤ 32

abbrev pub IsSound : Db → Type 0
IsSound db =
    All IsNamed db.rooms
    × All IsApart db.friendships
    × All IsWritten db.messages
    × All (λ (u : UserRow). IsBrief u.display_name) db.users

module _ {A : Type 0} where
  pub All-update :
      (P : A → Type 0) (p : A → Bool) (f : A → A) (xs : List A)
      → ((x : A) → P x → P (f x))
      → All P xs
      → All P (update_where p f xs)
  All-update P p f [] h ps = tt
  All-update P p f (x ∷ xs) h (px, ps) = elim (Bool-cases (p x)) [
    | inl hit ↦ rw hit (h x px, All-update P p f xs h ps)
    | inr miss ↦ rw miss (px, All-update P p f xs h ps)
  ]

-- Statements and sequences of them that keep the tables sound, wherever the database is lost.
abbrev pub Keeps : {A : Type 0} → Query A → Type 0
Keeps q = (w : World) → IsSound w.db → IsSound (q w).1.db

module _ {A : Type 0} where
  pub call-Keeps :
      (f : Db → Result A × Db) → ((db : Db) → IsSound db → IsSound (f db).1) → Keeps (call f)
  call-Keeps f h w s = elim (Bool-cases (next_fails w.faults)) [
    | inl lost ↦ rw lost s
    | inr reached ↦ rw reached (h w.db s)
  ]

  pub return-Keeps : (a : A) → Keeps (return a)
  return-Keeps a w s = s

  pub in_transaction-Keeps : (q : Query A) → Keeps q → Keeps (in_transaction q)
  unfolding in_transaction
  in_transaction-Keeps q h w s = elim (Bool-cases (is_ok (q w).0)) [
    | inl done ↦ rw (in_transaction, done) (h w s)
    | inr failed ↦ rw (in_transaction, failed) s
  ]

module _ {A B : Type 0} where
  pub bind-Keeps :
      (q : Query A) (k : A → Query B) → Keeps q → ((a : A) → Keeps (k a)) → Keeps (q >>= k)
  bind-Keeps q k h h' w s = elim (Result-cases (q w).0) [
    | inl (a, done) ↦ rw (◌>>=◌, done) (h' a (q w).1 (h w s))
    | inr (e, failed) ↦ rw (◌>>=◌, failed) (h w s)
  ]

  pub then-Keeps : (q : Query A) (r : Query B) → Keeps q → Keeps r → Keeps (q >> r)
  then-Keeps q r h h' = bind-Keeps q (λ _. r) h (λ _. h')
