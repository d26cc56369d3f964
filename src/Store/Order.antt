-- ===== src/Store/Order.antt =====
-- `ORDER BY key DESC` over a table, by insertion. What stands in the order of the table among rows
-- of one key is as PostgreSQL leaves it: unspecified, and here the table's own.
use chat_back.Prelude.{
  ℕ, ◌≤◌, ◌≡◌, refl, Bool, true, List, [], ◌∷◌, leb, if◌then◌else◌, arith, Bool-cases, inl, inr,
  All, ◌⊎◌, ◌↔◌, length, take, select, delete_where, collect, false, Option, some, Option-cases,
  zero, suc, ap,
}

module _ {ℓ} {A : Type ℓ} (key : A → ℕ) where
  unfoldable pub insert_by : A → List A → List A
  insert_by x [] = x ∷ []
  insert_by x (y ∷ ys) =
      let rest = insert_by x ys in if leb (key y) (key x) then x ∷ y ∷ ys else y ∷ rest

  unfoldable pub order_by : List A → List A
  unfolding insert_by
  order_by [] = []
  order_by (x ∷ xs) = insert_by x (order_by xs)

module _ {A : Type 0} where
  -- A row of the list.
  abbrev pub In : A → List A → Type 0
  In x [] = ⊥
  In x (y ∷ ys) = (x ≡ y) ⊎ In x ys

  pub All-In : (P : A → Type 0) (xs : List A) (x : A) → All P xs → In x xs → P x
  All-In P [] x ps i = absurd i
  All-In P (y ∷ ys) x ps (inl e) = rw e (ps.0)
  All-In P (y ∷ ys) x ps (inr i) = All-In P ys x ps.1 i

  pub In-All : (P : A → Type 0) (xs : List A) → ((x : A) → In x xs → P x) → All P xs
  In-All P [] f = tt
  In-All P (y ∷ ys) f = (f y (inl refl), In-All P ys (λ x i. f x (inr i)))

  pub select_keeps :
      (p : A → Bool) (xs : List A) (x : A) → In x xs → p x ≡ true → In x (select p xs)
  select_keeps p [] x i h = absurd i
  select_keeps p (y ∷ ys) x (inl e) h = ground arith
  select_keeps p (y ∷ ys) x (inr i) h = ground (arith, select_keeps p ys x i h)

  pub select_takes :
      (p : A → Bool) (xs : List A) (x : A) → In x (select p xs) → In x xs × (p x ≡ true)
  select_takes p [] x i = absurd i
  select_takes p (y ∷ ys) x i = ground (arith, select_takes p ys x)

  pub delete_keeps :
      (p : A → Bool) (xs : List A) (x : A) → In x xs → p x ≡ false → In x (delete_where p xs)
  delete_keeps p [] x i h = absurd i
  delete_keeps p (y ∷ ys) x (inl e) h = ground arith
  delete_keeps p (y ∷ ys) x (inr i) h = ground (arith, delete_keeps p ys x i h)

  pub take_takes : (n : ℕ) (xs : List A) (x : A) → In x (take n xs) → In x xs
  take_takes zero xs x i = absurd i
  take_takes (suc n) [] x i = absurd i
  take_takes (suc n) (y ∷ ys) x (inl e) = inl e
  take_takes (suc n) (y ∷ ys) x (inr i) = inr (take_takes n ys x i)

module _ {A B : Type 0} (f : A → Option B) where
  pub collect_takes :
      (xs : List A) (y : B) → In y (collect f xs) → (x : A) × In x xs × (f x ≡ some y)
  collect_takes [] y i = absurd i
  collect_takes (x ∷ xs) y i = elim (Option-cases (f x)) [
    | inl dropped ↦ let (z, in_xs, e) = collect_takes xs y (ground arith) in (z, inr in_xs, e)
    | inr (z, e) ↦
        let where_is : (y ≡ z) ⊎ In y (collect f xs) = ground arith in
        elim where_is [
          | inl same ↦ (x, inl refl, ground arith)
          | inr later ↦ let (z', in_xs, e') = collect_takes xs y later in (z', inr in_xs, e')
        ]
  ]

  pub collect_keeps : (xs : List A) (x : A) (y : B) → In x xs → f x ≡ some y → In y (collect f xs)
  collect_keeps [] x y i e = absurd i
  collect_keeps (z ∷ zs) x y (inl same) e = ground arith
  collect_keeps (z ∷ zs) x y (inr i) e = ground (arith, collect_keeps zs x y i e)

module _ {A : Type 0} (key : A → ℕ) where
  -- From the largest key to the smallest.
  abbrev pub Descends : List A → Type 0
  Descends [] = Unit {0}
  Descends (x ∷ xs) = All (λ y. key y ≤ key x) xs × Descends xs

  insert_by-In : (x y : A) (xs : List A) → In y (insert_by key x xs) ↔ ((y ≡ x) ⊎ In y xs)
  unfolding insert_by
  insert_by-In x y [] = (λ i. i, λ i. i)
  insert_by-In x y (z ∷ zs) = ground (arith, insert_by-In x y zs)

  insert_by-Descends : (x : A) (xs : List A) → Descends xs → Descends (insert_by key x xs)
  unfolding insert_by
  insert_by-Descends x [] d = (tt, tt)
  insert_by-Descends x (y ∷ ys) (below, d) = elim (Bool-cases (leb (key y) (key x))) [
    | inl e ↦
        rw e ((ground arith, In-All _ ys λ z i. ground (arith, All-In _ ys z below i)), (below, d))
    | inr e ↦ rw e (
      In-All _ (insert_by key x ys)
          (λ z i. ground (arith, (insert_by-In x z ys).0 i, All-In _ ys z below)),
      insert_by-Descends x ys d,
    )
  ]

  pub order_by-In : (y : A) (xs : List A) → In y (order_by key xs) ↔ In y xs
  unfolding order_by
  order_by-In y [] = (λ i. i, λ i. i)
  order_by-In y (x ∷ xs) = ground (arith, order_by-In y xs, insert_by-In x y (order_by key xs))

  pub order_by-Descends : (xs : List A) → Descends (order_by key xs)
  unfolding order_by
  order_by-Descends [] = tt
  order_by-Descends (x ∷ xs) = insert_by-Descends x (order_by key xs) (order_by-Descends xs)

  pub take-Descends : (n : ℕ) (xs : List A) → Descends xs → Descends (take n xs)
  take-Descends zero xs d = tt
  take-Descends (suc n) [] d = tt
  take-Descends (suc n) (x ∷ xs) (below, d) =
      (In-All _ (take n xs) λ y i. All-In _ xs y below (take_takes n xs y i), take-Descends n xs d)

  -- What does not fit into the first n of a descending list is below all of them, and they are n.
  pub take_leaves :
      (n : ℕ) (xs : List A) (y : A)
      → Descends xs
      → In y xs
      → In y (take n xs) ⊎ ((length (take n xs) ≡ n) × All (λ z. key y ≤ key z) (take n xs))
  take_leaves zero xs y d i = inr (refl, tt)
  take_leaves (suc n) [] y d i = absurd i
  take_leaves (suc n) (x ∷ xs) y d (inl e) = inl (inl e)
  take_leaves (suc n) (x ∷ xs) y (below, d) (inr i) = elim (take_leaves n xs y d i) [
    | inl j ↦ inl (inr j)
    | inr (full, above) ↦ inr (ap suc full, (All-In _ xs y below i, above))
  ]
