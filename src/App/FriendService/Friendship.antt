-- ===== src/App/FriendService/Friendship.antt =====
-- The life of a friendship: requested, accepted, removed.
use chat_back.Prelude.{
  Bool, true, false, List, [], ◌∷◌, Option, none, some, ◌==◌, ◌&&◌, ◌||◌, ◌≡◌, ◌↔◌, inl, inr, refl,
  arith, if◌then◌else◌, find_row, exists_row, update_where, Bool-cases, ==_iff, Bool-cases, ==_iff,
}
use chat_back.Domain.{Uuid, Time, FriendStatus, is_unanswered}
use chat_back.Store.{next_fails, later_faults, FriendRow, World, ok, Db}
use chat_back.Postgres.FriendRepo.{is_open_request}
use chat_back.App.FriendService.{accept}

abbrev pub friendship_with : Uuid → Db → Option FriendRow
friendship_with id db = find_row (λ (r : FriendRow). r.id == id) db.friendships

-- The row of an accepted request.
abbrev pub answered : Time → Option FriendRow → Option FriendRow
answered now none = none
answered now (some r) = some (record r { status = FriendStatus.accepted; updated_at = now })

abbrev pub open_to : Uuid → Option FriendRow → Bool
open_to addressee none = false
open_to addressee (some r) = r.addressee_id == addressee && is_unanswered r.status

abbrev pub takes_part : Uuid → Option FriendRow → Bool
takes_part user none = false
takes_part user (some r) = r.requester_id == user || r.addressee_id == user

-- The primary key of `friendships`.
abbrev pub HasKey : List FriendRow → Type 0
HasKey [] = Unit {0}
HasKey (r ∷ rows) = (exists_row (λ (s : FriendRow). s.id == r.id) rows ≡ false) × HasKey rows

absent_open :
    (id addressee : Uuid) (rows : List FriendRow)
    → exists_row (λ (s : FriendRow). s.id == id) rows ≡ false
    → exists_row (is_open_request id addressee) rows ≡ false
absent_open id addressee [] h = refl
absent_open id addressee (r ∷ rows) h = ground (arith, absent_open id addressee rows)

absent_find :
    (id : Uuid) (rows : List FriendRow)
    → exists_row (λ (s : FriendRow). s.id == id) rows ≡ false
    → find_row (λ (s : FriendRow). s.id == id) rows ≡ none
absent_find id [] h = refl
absent_find id (r ∷ rows) h = ground (arith, absent_find id rows)

exists-open_to :
    (id addressee : Uuid) (rows : List FriendRow)
    → HasKey rows
    → exists_row (is_open_request id addressee) rows
      ≡ open_to addressee (find_row (λ (s : FriendRow). s.id == id) rows)
exists-open_to id addressee [] k = refl
exists-open_to id addressee (r ∷ rows) k = elim (Bool-cases (r.id == id)) [
  | inl same ↦
      let e : r.id ≡ id = (==_iff r.id id).0 same in
      ground (arith, absent_open id addressee rows (rw e at k.0))
  | inr differs ↦ ground (arith, exists-open_to id addressee rows k.1)
]

find_row-answer :
    (id addressee j : Uuid) (now : Time) (rows : List FriendRow)
    → HasKey rows
    → find_row
        (λ (s : FriendRow). s.id == j)
        (update_where
          (is_open_request id addressee)
          (λ r. record r { status = FriendStatus.accepted; updated_at = now })
          rows)
      ≡ (if j == id && open_to addressee (find_row (λ (s : FriendRow). s.id == j) rows)
          then answered now (find_row (λ (s : FriendRow). s.id == j) rows)
          else find_row (λ (s : FriendRow). s.id == j) rows)
find_row-answer id addressee j now [] k = ground arith
find_row-answer id addressee j now (r ∷ rows) k =
    ground (arith, find_row-answer id addressee j now rows k.1)

-- With the database at hand and unique ids, accepting a friend request succeeds exactly when there
-- is one under the id that is addressed to the user and not answered. It is then accepted, and
-- every other friendship is as before; a request that is not accepted stays as it was.
pub accept_iff :
    (now : Time) (id user : Uuid) (w : World)
    → w.faults ≡ []
    → HasKey w.db.friendships
    → ((accept now id user w).0 ≡ ok tt ↔ (open_to user (friendship_with id w.db) ≡ true))
      × ((j : Uuid)
          → friendship_with j (accept now id user w).1.db ≡ (
              if j == id && open_to user (friendship_with j w.db)
              then answered now (friendship_with j w.db)
              else friendship_with j w.db))
unfolding accept next_fails later_faults
accept_iff now id user w f key = (
  (
    λ h. ground (arith, exists-open_to id user w.db.friendships key),
    λ h. ground (arith, exists-open_to id user w.db.friendships key),
  ),
  λ j. ground (
    arith,
    exists-open_to id user w.db.friendships key,
    find_row-answer id user j now w.db.friendships key,
    ==_iff j id,
  ),
)
