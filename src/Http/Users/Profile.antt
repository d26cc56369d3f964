-- ===== src/Http/Users/Profile.antt =====
-- The profile and the avatar: user_handler.go over user_service.go and user_repo.go.
use chat_back.Prelude.{
  ℕ, ◌≡◌, refl, Bool, Option, some, none, List, [], ◌∷◌, arith, Bool-cases, inl, inr, if◌then◌else◌,
  ◌==◌, ◌&&◌, ◌||◌, leb, not, length, find_row, update_where,
}
use chat_back.Text.{Text, trim_space, text_eq, has_nul}
use chat_back.Text.Split.{codes}
use chat_back.Domain.{Uuid, Time}
use chat_back.Store.{UserRow, Db, online, next_fails, later_faults}
use chat_back.Postgres.InviteRepo.{user_with}
use chat_back.Http.{Caller, given}
use chat_back.Http.Users.{update_profile, jpeg}

abbrev pub changed : (UserRow → UserRow) → Option UserRow → Option UserRow
changed f none = none
changed f (some u) = some (f u)

-- A row that is found after an update that keeps the ids.
update_find :
    (i j : Uuid) (f : UserRow → UserRow) (us : List UserRow)
    → ((u : UserRow) → (f u).id ≡ u.id)
    → find_row (λ (u : UserRow). u.id == j) (update_where (λ (u : UserRow). u.id == i) f us) ≡ (
        if i == j
        then changed f (find_row (λ (u : UserRow). u.id == j) us)
        else find_row (λ (u : UserRow). u.id == j) us)
update_find i j f [] h = ground arith
update_find i j f (u ∷ us) h = ground (arith, update_find i j f us h, h u)

-- The row of a user with a new name.
abbrev pub renamed : Text → Time → UserRow → UserRow
renamed name now u = record u { display_name = some name; updated_at = now }

-- A name of at most 32 characters, not counting the spaces around it.
abbrev pub is_short : Text → Bool
is_short name = leb (length (trim_space name)) 32

-- What a request for a new name is answered by: PostgreSQL refuses a name with U+0000.
abbrev pub status_for : Text → ℕ
status_for name =
    if not (is_short name) then 400 else if has_nul (trim_space name) then 500 else 200

-- With the database at hand, a name of at most 32 characters, without the spaces around it, that has
-- no U+0000 is the caller's display name from then on, and is answered by 200; a longer one is
-- answered by 400 and one with U+0000 by 500, and these change nothing. No other user's row changes.
pub update_profile_lem :
    (now : Time) (caller : Caller) (name : Text) (db : Db)
    → (let (r, w) = update_profile now caller (given name) (online db) in
        (r.status ≡ status_for name)
        × ((j : Uuid)
            → user_with j w.db ≡ (
                if status_for name == 200 && caller.user_id == j
                then changed (renamed (trim_space name) now) (user_with j db)
                else user_with j db)))
unfolding update_profile next_fails later_faults
update_profile_lem now caller name db = elim (Bool-cases (is_short name)) [
  | inl short ↦ (
    ground arith,
    λ j.
        ground (
          arith,
          update_find caller.user_id j (renamed (trim_space name) now) db.users (λ u. refl),
        ),
  )
  | inr long ↦ (ground arith, λ j. ground arith)
]

-- The row of a user with a new picture.
abbrev pictured : List ℕ → Time → UserRow → UserRow
pictured bytes now u = record u {
  avatar_data = some bytes;
  avatar_mime = some jpeg;
  updated_at = now;
}

abbrev pub is_supported : Text → Bool
is_supported content_type = text_eq content_type jpeg || text_eq content_type (codes "image/png")
