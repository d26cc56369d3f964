-- ===== src/Postgres/FriendRepo/Symmetric.antt =====
-- Who is on whose list of friends.
use chat_back.Prelude.{
  true, false, ◌≡◌, ◌↔◌, ◌⊎◌, inl, inr, arith, some, select, find_row-holds, ◌∙◌, ◌==◌,
  Option-cases, ap,
}
use chat_back.Domain.{Uuid, FriendEntry, is_unanswered}
use chat_back.Store.{UserRow, FriendRow, Db}
use chat_back.Store.Order.{In, collect_takes, collect_keeps, select_keeps, select_takes}
use chat_back.Store.Sort.{Collation, sort_by-In}
use chat_back.Postgres.InviteRepo.{user_with}
use chat_back.Postgres.UserRepo.{user_of_row}
use chat_back.Postgres.FriendRepo.Listings.{entry_of, is_friendship_of, other_side, friends_of}

-- The entry of a list of friends.
abbrev pub entry : Uuid → UserRow → FriendEntry
entry k u = record { friendship_id = k; user = user_of_row u }

-- An accepted friendship between two users, whoever asked.
abbrev pub Links : Uuid → Uuid → FriendRow → Type 0
Links a b f =
    (is_unanswered f.status ≡ false)
    × (((f.requester_id ≡ a) × (f.addressee_id ≡ b))
        ⊎ ((f.requester_id ≡ b) × (f.addressee_id ≡ a)))

-- A row of the table that links two users.
abbrev pub IsLinked : Uuid → Uuid → Uuid → Db → Type 0
IsLinked k a b db = (f : FriendRow) × In f db.friendships × (f.id ≡ k) × Links a b f

module _ (before : Collation) (db : Db) where
  user_with-id : (a : Uuid) (u : UserRow) → user_with a db ≡ some u → u.id ≡ a
  user_with-id a u e = ground (arith, find_row-holds (λ (x : UserRow). x.id == a) db.users u e)

  other_side_lem : (a b : Uuid) (f : FriendRow) → Links a b f → other_side a f ≡ b
  other_side_lem a b f l = ground (arith, l)

  other_side-Links :
      (a b : Uuid) (f : FriendRow) → is_friendship_of a f ≡ true → other_side a f ≡ b → Links a b f
  other_side-Links a b f h e = ground arith

  entry_of_linked :
      (k a b : Uuid) (u : UserRow) (f : FriendRow)
      → user_with b db ≡ some u
      → f.id ≡ k
      → Links a b f
      → entry_of a db f ≡ some (entry k u)
  entry_of_linked k a b u f row e l =
      let found : user_with (other_side a f) db ≡ some u =
        ap (λ x. user_with x db) (other_side_lem a b f l) ∙ row in
      ground arith

  entry_of_names :
      (k a b : Uuid) (u : UserRow) (f : FriendRow)
      → user_with b db ≡ some u
      → entry_of a db f ≡ some (entry k u)
      → (f.id ≡ k) × (other_side a f ≡ b)
  unfolding user_of_row
  entry_of_names k a b u f row e = elim (Option-cases (user_with (other_side a f) db)) [
    | inl missing ↦ absurd (ground arith)
    | inr (v, found) ↦
        (ground arith, ground (arith, user_with-id b u row, user_with-id (other_side a f) v found))
  ]

  IsLinked-friends_of :
      (k a b : Uuid) (u : UserRow)
      → user_with b db ≡ some u
      → IsLinked k a b db
      → In (entry k u) (friends_of before a db)
  unfolding friends_of
  IsLinked-friends_of k a b u row (f, i, e, l) =
      (sort_by-In (λ (x : FriendEntry) y. before x.user.username y.user.username) (entry k u) _).1 (
        collect_keeps (entry_of a db) (select (is_friendship_of a) db.friendships) f (entry k u)
          (select_keeps (is_friendship_of a) db.friendships f i (ground arith))
          (entry_of_linked k a b u f row e l))

  friends_of-IsLinked :
      (k a b : Uuid) (u : UserRow)
      → user_with b db ≡ some u
      → In (entry k u) (friends_of before a db)
      → IsLinked k a b db
  unfolding friends_of
  friends_of-IsLinked k a b u row i =
      let (f, taken, e) =
        collect_takes (entry_of a db) (select (is_friendship_of a) db.friendships) (entry k u) (
          (sort_by-In (λ (x : FriendEntry) y. before x.user.username y.user.username) (entry k u)
              _).0
            i) in
      let (in_table, accepted) = select_takes (is_friendship_of a) db.friendships f taken in
      let (same, other) = entry_of_names k a b u f row e in
      (f, in_table, same, other_side-Links a b f accepted other)

  -- Friends are on each other's lists: with the same friendship, if both have a row.
  pub friends_symmetric :
      (k a b : Uuid) (u v : UserRow)
      → user_with a db ≡ some u
      → user_with b db ≡ some v
      → In (entry k v) (friends_of before a db)
      → In (entry k u) (friends_of before b db)
  friends_symmetric k a b u v row_u row_v i =
      let (f, in_table, same, l) = friends_of-IsLinked k a b v row_v i in
      IsLinked-friends_of k b a u row_u (f, in_table, same, (l.0, ground (arith, l.1)))

  -- A user is on the list of another exactly if the table has an accepted friendship of theirs.
  pub friends_iff :
      (k a b : Uuid) (u : UserRow)
      → user_with b db ≡ some u
      → (In (entry k u) (friends_of before a db) ↔ IsLinked k a b db)
  friends_iff k a b u row = (friends_of-IsLinked k a b u row, IsLinked-friends_of k a b u row)
