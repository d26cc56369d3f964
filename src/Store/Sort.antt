-- ===== src/Store/Sort.antt =====
-- `ORDER BY` with a comparison of rows, for the columns that are texts: how PostgreSQL compares
-- them depends on the database's collation, which is a parameter of the listings.
use chat_back.Prelude.{Bool, List, [], ◌∷◌, if◌then◌else◌, ◌≡◌, ◌⊎◌, ◌↔◌, arith}
use chat_back.Text.{Text}
use chat_back.Store.Order.{In}

-- `before s t`: that `s` may stand before `t`.
abbrev pub Collation : Type 0
Collation = Text → Text → Bool

module _ {A : Type 0} (before : A → A → Bool) where
  unfoldable pub insert_sorted : A → List A → List A
  insert_sorted x [] = x ∷ []
  insert_sorted x (y ∷ ys) =
      let rest = insert_sorted x ys in if before x y then x ∷ y ∷ ys else y ∷ rest

  unfoldable pub sort_by : List A → List A
  unfolding insert_sorted
  sort_by [] = []
  sort_by (x ∷ xs) = insert_sorted x (sort_by xs)

  insert_sorted-In : (x y : A) (xs : List A) → In y (insert_sorted x xs) ↔ ((y ≡ x) ⊎ In y xs)
  unfolding insert_sorted
  insert_sorted-In x y [] = (λ i. i, λ i. i)
  insert_sorted-In x y (z ∷ zs) = ground (arith, insert_sorted-In x y zs)

  -- Sorting keeps the rows.
  pub sort_by-In : (y : A) (xs : List A) → In y (sort_by xs) ↔ In y xs
  unfolding sort_by
  sort_by-In y [] = (λ i. i, λ i. i)
  sort_by-In y (x ∷ xs) = ground (arith, sort_by-In y xs, insert_sorted-In x y (sort_by xs))
