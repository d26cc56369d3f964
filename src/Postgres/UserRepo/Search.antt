-- ===== src/Postgres/UserRepo/Search.antt =====
-- `Search` of user_repo.go.
use chat_back.Prelude.{
  Bool, false, List, [], ◌∷◌, ◌++◌, some, ◌≡◌, ◌≢◌, ◌≤◌, arith, refl, ap, sym, suc, ◌∙◌, All,
  length, map, take, select, length-take, Bool-cases, Option-cases, inl, inr,
}
use chat_back.Text.{Text, text_eq, text_eq_sound, is_empty}
use chat_back.Text.Split.{cut, cut-append, cut_sound, Lacks}
use chat_back.Domain.{Uuid, User}
use chat_back.Store.{UserRow, Db, online, ok, next_fails, later_faults}
use chat_back.Store.Order.{In, select_takes, take_takes}
use chat_back.Postgres.UserRepo.{user_of_row, parse_query, is_match, search}

-- A name and a tag are found in a query again: for a name without `#` and a tag.
pub parse_query-append :
    (name tag : Text)
    → Lacks b'#' name
    → is_empty tag ≡ false
    → parse_query (name ++ b'#' ∷ tag) ≡ some (name, tag)
unfolding parse_query
parse_query-append name tag lacks some_tag =
    rw (parse_query, cut-append b'#' name tag lacks, some_tag) refl

parse_query_sound : (q name tag : Text) → parse_query q ≡ some (name, tag) → q ≡ name ++ b'#' ∷ tag
unfolding parse_query
parse_query_sound q name tag e = elim (Option-cases (cut b'#' q)) [
  | inl missing ↦ absurd (ground arith)
  | inr ((n, t), found) ↦ elim (Bool-cases (is_empty t)) [
    | inl blank ↦ absurd (ground arith)
    | inr filled ↦ ground (arith, (cut_sound b'#' q n t found).0)
  ]
]

-- No two users have the same tag, as `users_tag_unique` has it.
abbrev pub IsTagged : List UserRow → Type 0
IsTagged [] = Unit {0}
IsTagged (u ∷ us) = All (λ (v : UserRow). text_eq v.tag u.tag ≡ false) us × IsTagged us

module _ {A B : Type 0} (f : A → B) where
  length-map : (xs : List A) → length (map f xs) ≡ length xs
  length-map [] = refl
  length-map (x ∷ xs) = ap suc (length-map xs)

  map_takes : (xs : List A) (y : B) → In y (map f xs) → (x : A) × In x xs × (y ≡ f x)
  map_takes [] y i = absurd i
  map_takes (x ∷ xs) y (inl e) = (x, inl refl, e)
  map_takes (x ∷ xs) y (inr i) = let (z, j, e) = map_takes xs y i in (z, inr j, e)

-- Whatever is asked, at most five users are found, each of them in the table, none the one who
-- asks, and each with the tag after the first `#`.
pub search_sound :
    (ilike : Text → Text → Bool) (q : Text) (exclude : Uuid) (db : Db) (found : List User)
    → (search ilike q exclude (online db)).0 ≡ ok found
    → (length found ≤ 5)
      × ((x : User)
          → In x found
          → (u : UserRow) × In u db.users
            × (x ≡ user_of_row u)
            × (u.id ≢ exclude)
            × (name : Text) × (q ≡ name ++ b'#' ∷ u.tag))
unfolding search next_fails later_faults
search_sound ilike q exclude db found e = elim (Option-cases (parse_query q)) [
  | inl bad ↦
      let none_found : found ≡ [] = ground arith in rw none_found (omega arith, λ x i. absurd i)
  | inr ((name, tag), parsed) ↦
      let rows = select (is_match ilike name tag exclude) db.users in
      let these : found ≡ map user_of_row (take 5 rows) = ground arith in
      rw these (
        ground (arith, length-map user_of_row (take 5 rows), length-take 5 rows),
        λ x i.
            let (u, taken, e') = map_takes user_of_row (take 5 rows) x i in
            let (in_table, matched) =
              select_takes (is_match ilike name tag exclude) db.users u
                (take_takes 5 rows u taken) in
            let same = text_eq_sound u.tag tag (ground arith) in
            (
              u,
              in_table,
              e',
              ground arith,
              name,
              parse_query_sound q name tag parsed ∙ ap (λ t. name ++ b'#' ∷ t) (sym same),
            ),
      )
]
