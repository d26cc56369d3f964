-- ===== src/Auth/Tag.antt =====
-- `generateUniqueTag` of auth_handler.go. What `rand.IntN(9999)` draws is an argument: one number
-- below 9999 for each round of the loop.
use chat_back.Prelude.{
  ℕ, ◌+◌, ◌-◌, ◌*◌, ◌/◌, ◌%◌, ◌<◌, ◌≡◌, ◌⊎◌, inl, inr, refl, Bool-cases, Bool, true, false, List,
  [], ◌∷◌, if◌then◌else◌, arith, All, exists_row,
}
use chat_back.Text.{Text, text_eq}
use chat_back.Domain.{no_unique_tag}
use chat_back.Store.{
  UserRow, Db, World, Query, ok, err, read, return, throw, ◌>>=◌, online, next_fails, later_faults,
}

abbrev digit : ℕ → ℕ
digit d = b'0' + d

-- `%04d` of a number below 10000.
unfoldable pub sprintf_04d : ℕ → Text
sprintf_04d n = digit (n / 1000) ∷ digit (n / 100 % 10) ∷ digit (n / 10 % 10) ∷ digit (n % 10) ∷ []

abbrev pub has_tag : Text → Db → Bool
has_tag tag db = exists_row (λ (u : UserRow). text_eq u.tag tag) db.users

unfoldable pub tag_exists : Text → Query Bool
unfolding text_eq
tag_exists tag = read (λ db. ok (has_tag tag db))

-- The rounds of the loop, over the draws to come.
unfoldable pub generate_unique_tag : List ℕ → Query Text
unfolding tag_exists
generate_unique_tag [] = throw no_unique_tag
generate_unique_tag (d ∷ draws) = do
  taken ← tag_exists (sprintf_04d (d + 1))
  if taken then generate_unique_tag draws else return (sprintf_04d (d + 1))

-- The number that a tag stands for.
abbrev pub read_tag : Text → ℕ
read_tag (a ∷ b ∷ c ∷ d ∷ []) = (a - b'0') * 1000 + (b - b'0') * 100 + (c - b'0') * 10 + (d - b'0')
read_tag _ = 0

pub read-sprintf : (n : ℕ) → n < 10000 → read_tag (sprintf_04d n) ≡ n
unfolding sprintf_04d
read-sprintf n h = omega arith

-- The draws that `rand.IntN(9999)` can make.
abbrev pub IsDraw : ℕ → Type 0
IsDraw d = d < 9999

-- The tag of some draw.
abbrev pub IsDrawn : Text → List ℕ → Type 0
IsDrawn tag [] = ⊥
IsDrawn tag (d ∷ draws) = (tag ≡ sprintf_04d (d + 1)) ⊎ IsDrawn tag draws

-- What generateUniqueTag returns with the database at hand: a tag of one of its draws that no user
-- has; or its error, when users have the tags of all of them.
pub generate_unique_tag_lem :
    (draws : List ℕ) (db : Db)
    → ((generate_unique_tag draws (online db)).1 ≡ online db)
      × (((tag : Text) × ((generate_unique_tag draws (online db)).0 ≡ ok tag)
            × IsDrawn tag draws
            × (has_tag tag db ≡ false))
          ⊎ (((generate_unique_tag draws (online db)).0 ≡ err no_unique_tag)
              × All (λ d. has_tag (sprintf_04d (d + 1)) db ≡ true) draws))
unfolding generate_unique_tag tag_exists next_fails later_faults
generate_unique_tag_lem [] db = (refl, inr (refl, tt))
generate_unique_tag_lem (d ∷ draws) db = elim (Bool-cases (has_tag (sprintf_04d (d + 1)) db)) [
  | inl taken ↦
      let (kept, later) = generate_unique_tag_lem draws db in
      rw taken (
        kept,
        elim later [
          | inl (tag, found, drawn, free) ↦ inl (tag, found, inr drawn, free)
          | inr (failed, all) ↦ inr (failed, (refl, all))
        ],
      )
  | inr free ↦ rw free (refl, inl (sprintf_04d (d + 1), refl, inl refl, free))
]

pub generate_unique_tag_keeps :
    (draws : List ℕ) (w : World) → (generate_unique_tag draws w).1.db ≡ w.db
unfolding generate_unique_tag tag_exists
generate_unique_tag_keeps [] w = refl
generate_unique_tag_keeps (d ∷ draws) w =
    ground (arith, generate_unique_tag_keeps draws (record w { faults = later_faults w.faults }))
