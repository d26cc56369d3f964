-- ===== src/Prelude/Sets.antt =====
-- Finite sets and maps with number keys, for Go's `map[K]struct{}` and `map[K]V`. The laws are
-- in `if` form, so that they need no side condition.
use Prim.Native.Nat.{ℕ}
use mathlib.Core.Path.{◌≡◌, refl, fun_ext, ap, sym}
use mathlib.Core.Logic.{◌≢◌, inl, inr}
use mathlib.Core.Bool.{Bool, true, false, ◌&&◌, ◌||◌, not}
use mathlib.Core.Option.{Option, none, some}
use mathlib.Core.List.{List, [], ◌∷◌}
use native.Mathlib.Omega.{arith}
use chat_back.Prelude.Lists.{find_row}
use chat_back.Prelude.Tests.{◌==◌, ==_iff, Bool-cases, if◌then◌else◌}

-- A set, without duplicates by construction.
unfoldable pub contains : ℕ → List ℕ → Bool
contains x [] = false
contains x (y ∷ s) = x == y || contains x s

unfoldable pub add : ℕ → List ℕ → List ℕ
unfolding contains
add x s = if contains x s then s else x ∷ s

unfoldable pub remove : ℕ → List ℕ → List ℕ
remove x [] = []
remove x (y ∷ s) = let rest = remove x s in if x == y then rest else y ∷ rest

pub contains-add : (x y : ℕ) (s : List ℕ) → contains x (add y s) ≡ (x == y || contains x s)
unfolding contains add
contains-add x y s = ground arith

pub add_some : (x : ℕ) (s : List ℕ) → add x s ≢ []
unfolding add contains
add_some x [] = ground arith
add_some x (y ∷ s) = ground arith

pub contains-remove :
    (x y : ℕ) (s : List ℕ) → contains x (remove y s) ≡ (not (x == y) && contains x s)
unfolding contains remove
contains-remove x y [] = ground arith
contains-remove x y (z ∷ s) = ground (arith, contains-remove x y s)

pub contains-cons : (x y : ℕ) (s : List ℕ) → contains x (y ∷ s) ≡ (x == y || contains x s)
unfolding contains
contains-cons x y s = refl

pub contains_head : (y : ℕ) (s : List ℕ) → contains y (y ∷ s) ≡ true
unfolding contains
contains_head y s = ground arith

pub contains_tail : (x y : ℕ) (s : List ℕ) → contains x s ≡ true → contains x (y ∷ s) ≡ true
unfolding contains
contains_tail x y s h = ground arith

pub contains-nil : (x : ℕ) → contains x [] ≡ false
unfolding contains
contains-nil x = refl

module _ {ℓ} {V : Type ℓ} where
  unfoldable pub lookup : ℕ → List (ℕ × V) → Option V
  lookup k [] = none
  lookup k ((j, v) ∷ d) = let rest = lookup k d in if k == j then some v else rest

  unfoldable pub erase : ℕ → List (ℕ × V) → List (ℕ × V)
  erase k [] = []
  erase k ((j, v) ∷ d) = let rest = erase k d in if k == j then rest else (j, v) ∷ rest

  unfoldable pub insert : ℕ → V → List (ℕ × V) → List (ℕ × V)
  insert k v [] = (k, v) ∷ []
  insert k v ((j, w) ∷ d) = let rest = insert k v d in if k == j then (k, v) ∷ d else (j, w) ∷ rest

  pub lookup-erase :
      (j k : ℕ) (d : List (ℕ × V)) → lookup j (erase k d) ≡ (if j == k then none else lookup j d)
  unfolding lookup erase
  lookup-erase j k [] = ground arith
  lookup-erase j k ((i, w) ∷ d) = ground (arith, lookup-erase j k d)

  pub lookup-insert :
      (j k : ℕ) (v : V) (d : List (ℕ × V))
      → lookup j (insert k v d) ≡ (if j == k then some v else lookup j d)
  unfolding lookup insert
  lookup-insert j k v [] = ground arith
  lookup-insert j k v ((i, w) ∷ d) = ground (arith, lookup-insert j k v d)

-- A function changed at one key.
abbrev pub update {ℓ} : {V : Type ℓ} → (ℕ → V) → ℕ → V → ℕ → V
update f k v j = if j == k then v else f j

pub update_same {ℓ} : {V : Type ℓ} (f : ℕ → V) (k : ℕ) → update f k (f k) ≡ f
update_same f k = fun_ext (λ j. at j (j == k) refl)
  where
    at : (j : ℕ) (b : Bool) → (j == k) ≡ b → (if b then f k else f j) ≡ f j
    at j true e = ap f (sym ((==_iff j k).0 e))
    at j false e = refl

-- Maps to sets, for Go's `map[K]map[V]struct{}`: a missing key stands for no element.
abbrev pub set_of : Option (List ℕ) → List ℕ
set_of none = []
set_of (some s) = s

abbrev pub is_nil : List ℕ → Bool
is_nil [] = true
is_nil (_ ∷ _) = false

-- `m[k] = s`, or `delete(m, k)` if the set is empty.
abbrev pub put_or_drop : ℕ → List ℕ → List (ℕ × List ℕ) → List (ℕ × List ℕ)
put_or_drop k s d = if is_nil s then erase k d else insert k s d

pub lookup-put_or_drop :
    (j k : ℕ) (s : List ℕ) (d : List (ℕ × List ℕ))
    → set_of (lookup j (put_or_drop k s d)) ≡ (if j == k then s else set_of (lookup j d))
lookup-put_or_drop j k [] d = ground (arith, lookup-erase j k d)
lookup-put_or_drop j k (x ∷ s) d = ground (arith, lookup-insert j k (x ∷ s) d)

pub put_or_drop-some :
    (j k : ℕ) (s : List ℕ) (d : List (ℕ × List ℕ))
    → lookup j d ≢ some []
    → lookup j (put_or_drop k s d) ≢ some []
put_or_drop-some j k [] d h = ground (arith, lookup-erase j k d)
put_or_drop-some j k (x ∷ s) d h = ground (arith, lookup-insert j k (x ∷ s) d)

-- `if s, ok := m[k]; ok { delete(s, x); if len(s) == 0 { delete(m, k) } }`
abbrev pub drop_from : ℕ → ℕ → Option (List ℕ) → List (ℕ × List ℕ) → List (ℕ × List ℕ)
drop_from x k none d = d
drop_from x k (some s) d = put_or_drop k (remove x s) d

lookup_drop :
    (j k x : ℕ) (o : Option (List ℕ)) (d : List (ℕ × List ℕ))
    → lookup k d ≡ o
    → set_of (lookup j (drop_from x k o d))
      ≡ (if j == k then remove x (set_of o) else set_of (lookup j d))
unfolding remove
lookup_drop j k x none d e = elim (Bool-cases (j == k)) [
  | inl same ↦ rw same (rw ((==_iff j k).0 same) (ap set_of e))
  | inr other ↦ rw other
]
lookup_drop j k x (some s) d e = lookup-put_or_drop j k (remove x s) d

pub lookup-drop_from :
    (j k x : ℕ) (d : List (ℕ × List ℕ))
    → set_of (lookup j (drop_from x k (lookup k d) d))
      ≡ (if j == k then remove x (set_of (lookup k d)) else set_of (lookup j d))
lookup-drop_from j k x d = lookup_drop j k x (lookup k d) d refl

drop_some :
    (j k x : ℕ) (o : Option (List ℕ)) (d : List (ℕ × List ℕ))
    → lookup j d ≢ some []
    → lookup j (drop_from x k o d) ≢ some []
drop_some j k x none d h = h
drop_some j k x (some s) d h = put_or_drop-some j k (remove x s) d h

pub drop_from-some :
    (j k x : ℕ) (d : List (ℕ × List ℕ))
    → lookup j d ≢ some []
    → lookup j (drop_from x k (lookup k d) d) ≢ some []
drop_from-some j k x d h = drop_some j k x (lookup k d) d h

-- Whether that empties the set.
abbrev pub empties : ℕ → Option (List ℕ) → Bool
empties x none = false
empties x (some s) = is_nil (remove x s)

pub find-contains :
    (p : ℕ → Bool) (s : List ℕ) (x : ℕ)
    → find_row p s ≡ some x
    → (contains x s ≡ true) × (p x ≡ true)
unfolding contains
find-contains p [] x h = cc
find-contains p (y ∷ s) x h = elim (Bool-cases (p y)) [
  | inl here ↦ let e : y ≡ x = ground arith in (ground arith, rw e at here)
  | inr later ↦ let r = find-contains p s x (ground arith) in ground arith
]

abbrev pub keys {ℓ} : {V : Type ℓ} → List (ℕ × V) → List ℕ
keys [] = []
keys ((k, _) ∷ d) = k ∷ keys d

pub lookup-keys :
    (x k : ℕ) (d : List (ℕ × List ℕ))
    → contains x (set_of (lookup k d)) ≡ true
    → contains k (keys d) ≡ true
unfolding lookup contains
lookup-keys x k [] h = cc
lookup-keys x k ((j, s) ∷ d) h = ground (arith, lookup-keys x k d)

pub lookup-nil {ℓ} : {V : Type ℓ} (k : ℕ) → lookup {V = V} k [] ≡ none
unfolding lookup
lookup-nil k = refl
