-- ===== src/Postgres/MessageRepo/Walk.antt =====
-- A reader who follows the cursor: each request asks for what comes before the last message of
-- the page before.
use chat_back.Prelude.{
  ℕ, zero, suc, ◌≤◌, ◌<◌, ◌≡◌, ◌≢◌, ◌⊎◌, ◌↔◌, inl, inr, Bool, true, false, List, [], ◌∷◌, ◌++◌,
  Option, none, some, ◌==◌, length, arith, count_where, sym, subst, Option-cases, Bool-cases,
}
use chat_back.Domain.{Uuid, uuid_nil}
use chat_back.Store.{MessageRow}
use chat_back.Store.Order.{In, All-In}
use chat_back.Postgres.MessageRepo.{page, before_cursor}
use chat_back.Postgres.MessageRepo.Page.{page_sound, page_complete}

abbrev last_of : List MessageRow → Option MessageRow
last_of [] = none
last_of (x ∷ xs) = let rest = last_of xs in elim rest [ none ↦ some x | some z ↦ some z ]

-- The messages of at most `n` requests.
unfoldable pub walk : ℕ → Uuid → Uuid → ℕ → List MessageRow → List MessageRow
unfolding page
walk zero room cursor limit rows = []
walk (suc n) room cursor limit rows =
    let p = page room cursor limit rows in
    p ++ elim (last_of p) [ none ↦ [] | some z ↦ walk n room z.id limit rows ]

-- The primary key of `messages`.
abbrev pub HasKey : List MessageRow → Type 0
HasKey rows = (a b : MessageRow) → In a rows → In b rows → a.id ≡ b.id → a ≡ b

In-left : (x : MessageRow) (xs ys : List MessageRow) → In x xs → In x (xs ++ ys)
In-left x [] ys i = absurd i
In-left x (y ∷ xs) ys (inl e) = inl e
In-left x (y ∷ xs) ys (inr i) = inr (In-left x xs ys i)

In-right : (x : MessageRow) (xs ys : List MessageRow) → In x ys → In x (xs ++ ys)
In-right x [] ys i = i
In-right x (y ∷ xs) ys i = inr (In-right x xs ys i)

In-either : (x : MessageRow) (xs ys : List MessageRow) → In x (xs ++ ys) → In x xs ⊎ In x ys
In-either x [] ys i = inr i
In-either x (y ∷ xs) ys (inl e) = inl (inl e)
In-either x (y ∷ xs) ys (inr i) = elim (In-either x xs ys i) [ inl j ↦ inl (inr j) | inr j ↦ inr j ]

last_of-In : (xs : List MessageRow) (z : MessageRow) → last_of xs ≡ some z → In z xs
last_of-In [] z e = ground arith
last_of-In (x ∷ xs) z e = ground (arith, last_of-In xs z)

last_of-some : (xs : List MessageRow) → 0 < length xs → last_of xs ≢ none
last_of-some [] h e = ground arith
last_of-some (x ∷ xs) h e = ground arith

-- Fewer rows pass a test that is stricter at one of them.
count_where-less :
    (p q : MessageRow → Bool) (rows : List MessageRow) (z : MessageRow)
    → ((m : MessageRow) → q m ≡ true → p m ≡ true)
    → In z rows
    → p z ≡ true
    → q z ≡ false
    → count_where q rows < count_where p rows
count_where-less p q rows z imp i pz qz = less rows i
  where
    weak : (xs : List MessageRow) → count_where q xs ≤ count_where p xs
    weak [] = omega arith
    weak (x ∷ xs) = ground (arith, weak xs, imp x)

    less : (xs : List MessageRow) → In z xs → count_where q xs < count_where p xs
    less [] i = absurd i
    less (x ∷ xs) (inl e) =
        let weaker = weak xs in
        let px : p x ≡ true = cc in let qx : q x ≡ false = cc in ground arith
    less (x ∷ xs) (inr i) = ground (arith, less xs i, imp x)

count_where-some :
    (p : MessageRow → Bool) (rows : List MessageRow) (z : MessageRow)
    → In z rows
    → p z ≡ true
    → 0 < count_where p rows
count_where-some p [] z i h = absurd i
count_where-some p (x ∷ xs) z (inl e) h = let px : p x ≡ true = cc in ground arith
count_where-some p (x ∷ xs) z (inr i) h = ground (arith, count_where-some p xs z i h)

-- After a page that ends with `z`, fewer messages are left.
fewer_left :
    (room cursor : Uuid) (rows : List MessageRow) (z : MessageRow)
    → In z rows
    → before_cursor room cursor z ≡ true
    → z.id ≢ uuid_nil
    → count_where (before_cursor room z.id) rows < count_where (before_cursor room cursor) rows
fewer_left room cursor rows z i b ne =
    count_where-less (before_cursor room cursor) (before_cursor room z.id) rows z
      (λ m. before_later m) i b (ground arith)
  where
    before_later :
        (m : MessageRow) → before_cursor room z.id m ≡ true → before_cursor room cursor m ≡ true
    before_later m h = ground arith

walk_reaches :
    (n : ℕ) (room cursor : Uuid) (limit : ℕ) (rows : List MessageRow) (m : MessageRow)
    → 0 < limit
    → HasKey rows
    → In m rows
    → before_cursor room cursor m ≡ true
    → count_where (before_cursor room cursor) rows ≤ n
    → In m (walk n room cursor limit rows)
unfolding walk
walk_reaches zero room cursor limit rows m pos key i b few =
    absurd (ground (arith, count_where-some (before_cursor room cursor) rows m i b))
walk_reaches (suc n) room cursor limit rows m pos key i b few =
    let p = page room cursor limit rows in
    elim (page_complete room cursor limit rows m i b) [
      | inl on ↦ In-left m p _ on
      | inr (full, above) ↦ elim (Option-cases (last_of p)) [
        | inl e ↦ absurd (last_of-some p (ground arith) e)
        | inr (z, e) ↦
            let z_on = last_of-In p z e in
            let (z_in, z_before) = (page_sound room cursor limit rows).2 z z_on in
            let m≤z : m.id ≤ z.id = All-In _ p z above z_on in
            elim (Bool-cases (m.id == z.id)) [
              | inl same ↦
                  In-left m p _ (subst (λ x. In x p) (sym (key m z i z_in (ground arith))) z_on)
              | inr other ↦ In-right m p _ (
                  rw e (
                    walk_reaches n room z.id limit rows m pos key i (ground arith)
                      (ground (arith, fewer_left room cursor rows z z_in z_before (ground arith)))))
            ]
      ]
    ]

walk_stays :
    (n : ℕ) (room cursor : Uuid) (limit : ℕ) (rows : List MessageRow) (m : MessageRow)
    → In m (walk n room cursor limit rows)
    → In m rows × (m.room_id ≡ room)
unfolding walk
walk_stays zero room cursor limit rows m i = absurd i
walk_stays (suc n) room cursor limit rows m i =
    let p = page room cursor limit rows in
    elim (In-either m p _ i) [
      | inl on ↦
          let (there, before) = (page_sound room cursor limit rows).2 m on in (there, ground arith)
      | inr later ↦ elim (Option-cases (last_of p)) [
        | inl e ↦ absurd (rw e at later)
        | inr (z, e) ↦ walk_stays n room z.id limit rows m (rw e at later)
      ]
    ]

count_where-length :
    (p : MessageRow → Bool) (rows : List MessageRow) → count_where p rows ≤ length rows
count_where-length p [] = omega arith
count_where-length p (x ∷ xs) = ground (arith, count_where-length p xs)

-- Whoever follows the cursor from the start, with pages of any positive size, has read exactly the
-- messages of the room after at most as many requests as the table has messages.
pub walk_complete :
    (room : Uuid) (limit : ℕ) (rows : List MessageRow)
    → 0 < limit
    → HasKey rows
    → (m : MessageRow)
    → In m (walk (length rows) room uuid_nil limit rows) ↔ (In m rows × (m.room_id ≡ room))
walk_complete room limit rows pos key m = (
  walk_stays (length rows) room uuid_nil limit rows m,
  λ h.
      walk_reaches (length rows) room uuid_nil limit rows m pos key h.0 (ground arith)
        (count_where-length (before_cursor room uuid_nil) rows),
)
