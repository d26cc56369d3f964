-- ===== src/Text/Split.antt =====
-- What the program uses of Go's package `strings` beyond `TrimSpace`: `Split`, `SplitN` with a
-- limit of two, `IndexByte` with a slice up to it, `Contains` and `HasPrefix`.
use Prim.Native.Char.{code}
use Prim.Native.String.{String}
use chat_back.Prelude.{
  ℕ, ◌≡◌, ◌≢◌, refl, ap, ◌∙◌, false, List, [], ◌∷◌, ◌++◌, Option, none, some, ◌==◌, if◌then◌else◌,
  arith, All, contains, ==_iff, Bool-cases, Option-cases, inl, inr,
}
use chat_back.Text.{Text}

-- The text of a literal.
abbrev pub codes : String → Text
codes String.[] = []
codes (String.◌∷◌ c s) = code c ∷ codes s

-- A character before the first part.
abbrev onto : ℕ → List Text → List Text
onto c [] = (c ∷ []) ∷ []
onto c (p ∷ ps) = (c ∷ p) ∷ ps

-- `strings.Split`, for a separator of one character.
unfoldable pub split : ℕ → Text → List Text
split sep [] = [] ∷ []
split sep (c ∷ s) = let parts = split sep s in if c == sep then [] ∷ parts else onto c parts

-- What stands before the first separator and what after it.
unfoldable pub cut : ℕ → Text → Option (Text × Text)
cut sep [] = none
cut sep (c ∷ s) =
    let rest = cut sep s in
    if c == sep then some ([], s) else elim rest [ none ↦ none | some (p, q) ↦ some (c ∷ p, q) ]

-- `strings.HasPrefix` and `strings.TrimPrefix`, as one: the text after the prefix.
unfoldable pub strip_prefix : Text → Text → Option Text
strip_prefix [] t = some t
strip_prefix (c ∷ p) [] = none
strip_prefix (c ∷ p) (d ∷ t) = if c == d then strip_prefix p t else none

-- The inverse of `split`.
unfoldable pub join : ℕ → List Text → Text
join sep [] = []
join sep (p ∷ []) = p
join sep (p ∷ q ∷ ps) = p ++ sep ∷ join sep (q ∷ ps)

-- A text without the separator.
abbrev pub Lacks : ℕ → Text → Type 0
Lacks sep s = contains sep s ≡ false

pub split_some : (sep : ℕ) (s : Text) → split sep s ≢ []
unfolding split
split_some sep [] = ground arith
split_some sep (c ∷ s) =
    elim (split sep s) as (λ parts. (if c == sep then [] ∷ parts else onto c parts) ≢ []) [
      | [] ↦ ground arith
      | p ∷ ps ↦ ground arith
    ]

join-onto :
    (sep c : ℕ) (parts : List Text) → parts ≢ [] → join sep (onto c parts) ≡ c ∷ join sep parts
unfolding join
join-onto sep c [] h = absurd (h refl)
join-onto sep c (p ∷ []) h = refl
join-onto sep c (p ∷ q ∷ ps) h = refl

join-cons :
    (sep : ℕ) (parts : List Text) → parts ≢ [] → join sep ([] ∷ parts) ≡ sep ∷ join sep parts
unfolding join
join-cons sep [] h = absurd (h refl)
join-cons sep (p ∷ ps) h = refl

pub join-split : (sep : ℕ) (s : Text) → join sep (split sep s) ≡ s
unfolding split
join-split sep [] = unfold join in refl
join-split sep (c ∷ s) = elim (Bool-cases (c == sep)) [
  | inl same ↦
      rw (same, (==_iff c sep).0 same)
        (join-cons sep (split sep s) (split_some sep s) ∙ ap (λ t. sep ∷ t) (join-split sep s))
  | inr differs ↦
      rw differs
        (join-onto sep c (split sep s) (split_some sep s) ∙ ap (λ t. c ∷ t) (join-split sep s))
]

pub cut-append : (sep : ℕ) (p q : Text) → Lacks sep p → cut sep (p ++ sep ∷ q) ≡ some (p, q)
unfolding cut contains
cut-append sep [] q h = ground arith
cut-append sep (c ∷ p) q h = ground (arith, cut-append sep p q)

pub cut-Lacks : (sep : ℕ) (s : Text) → Lacks sep s → cut sep s ≡ none
unfolding cut contains
cut-Lacks sep [] h = refl
cut-Lacks sep (c ∷ s) h = ground (arith, cut-Lacks sep s)

-- A text is cut at the first separator.
pub cut_sound :
    (sep : ℕ) (s p q : Text) → cut sep s ≡ some (p, q) → (s ≡ p ++ sep ∷ q) × Lacks sep p
unfolding cut contains
cut_sound sep [] p q h = absurd (ground arith)
cut_sound sep (c ∷ s) p q h = elim (Option-cases (cut sep s)) [
  | inl e ↦ (ground arith, ground arith)
  | inr ((p', q'), e) ↦
      let (joined, lacks) = cut_sound sep s p' q' e in (ground arith, ground arith)
]

split-Lacks : (sep : ℕ) (s : Text) → Lacks sep s → split sep s ≡ s ∷ []
unfolding split contains
split-Lacks sep [] h = refl
split-Lacks sep (c ∷ s) h = ground (arith, split-Lacks sep s)

split-append : (sep : ℕ) (p t : Text) → Lacks sep p → split sep (p ++ sep ∷ t) ≡ p ∷ split sep t
unfolding split contains
split-append sep [] t h = ground arith
split-append sep (c ∷ p) t h = ground (arith, split-append sep p t)

pub split-join :
    (sep : ℕ) (parts : List Text)
    → parts ≢ []
    → All (Lacks sep) parts
    → split sep (join sep parts) ≡ parts
unfolding join
split-join sep [] h l = absurd (h refl)
split-join sep (p ∷ []) h l = split-Lacks sep p l.0
split-join sep (p ∷ q ∷ ps) h l =
    split-append sep p (join sep (q ∷ ps)) l.0
    ∙ ap (λ ts. p ∷ ts) (split-join sep (q ∷ ps) (ground arith) l.1)
