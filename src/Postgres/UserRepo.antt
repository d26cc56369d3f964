-- ===== src/Postgres/UserRepo.antt =====
-- internal/adapter/outbound/postgres/user_repo.go, and the `INSERT` of auth_handler.go. How
-- PostgreSQL matches `ILIKE` is a parameter, `ilike text pattern`; that a search for a text with
-- U+0000 is refused is not written out.
pub mod Search
use chat_back.Prelude.{
  ℕ, Bool, true, false, not, List, [], ◌∷◌, Option, none, some, ◌==◌, ◌&&◌, ◌||◌, if◌then◌else◌,
  map, take, is_some, exists_row, find_row, select, update_where,
}
use chat_back.Text.{Text, text_eq, is_empty, has_nul}
use chat_back.Text.Split.{cut, codes}
use chat_back.Domain.{
  Uuid, Time, not_found, User, driver, character_not_in_repertoire, unique_violation, users_pkey,
  users_username_key, users_email_key, users_tag_unique,
}
use chat_back.Store.{UserRow, Db, World, Result, ok, err, Query, call, read, return}
use chat_back.Postgres.RoomRepo.{or_not_found}
use chat_back.Postgres.InviteRepo.{user_with}

-- `COALESCE(x, '…')`
abbrev pub or_text : Text → Option Text → Text
or_text t none = t
or_text t (some s) = s

-- The columns of a user.
unfoldable pub user_of_row : UserRow → User
user_of_row u = record {
  id = u.id;
  username = u.username;
  tag = u.tag;
  display_name = or_text [] u.display_name;
  email = u.email;
  has_avatar = is_some u.avatar_data;
  created_at = u.created_at;
  updated_at = u.updated_at;
}

abbrev pub found_user : Option UserRow → Result User
found_user none = err not_found
found_user (some u) = ok (user_of_row u)

unfoldable pub get_by_id : Uuid → Query User
unfolding user_of_row
get_by_id id = read (λ db. found_user (user_with id db))

abbrev pub with_users : List UserRow → Db → Db
with_users us db = record db { users = us }

-- `INSERT INTO users (id, username, email, password, tag)`; the other columns have their defaults.
-- The unique keys are tried in the order in which the migrations make them.
abbrev pub new_user : Time → Uuid → Text → Text → Text → Text → UserRow
new_user now id username email password tag = record {
  id = id;
  username = username;
  email = email;
  password = password;
  tag = tag;
  display_name = none;
  avatar_data = none;
  avatar_mime = none;
  is_admin = false;
  created_at = now;
  updated_at = now;
}

unfoldable pub insert_user : UserRow → Db → Result (Unit {0}) × Db
unfolding text_eq has_nul
insert_user u db =
    if has_nul u.username || has_nul u.email || has_nul u.password || has_nul u.tag
    then (err (driver character_not_in_repertoire), db)
    else if exists_row (λ (x : UserRow). x.id == u.id) db.users
    then (err (driver (unique_violation users_pkey)), db)
    else if exists_row (λ (x : UserRow). text_eq x.username u.username) db.users
    then (err (driver (unique_violation users_username_key)), db)
    else if exists_row (λ (x : UserRow). text_eq x.email u.email) db.users
    then (err (driver (unique_violation users_email_key)), db)
    else if exists_row (λ (x : UserRow). text_eq x.tag u.tag) db.users
    then (err (driver (unique_violation users_tag_unique)), db)
    else (ok tt, with_users (u ∷ db.users) db)

unfoldable pub update_profile : Time → Uuid → Text → Query (Unit {0})
unfolding has_nul
update_profile now id display_name = call (λ db.
    if has_nul display_name then (err (driver character_not_in_repertoire), db) else (
      ok tt,
      with_users
          (update_where (λ (u : UserRow). u.id == id)
            (λ u. record u { display_name = some display_name; updated_at = now }) db.users)
          db,
    ))

unfoldable pub save_avatar : Time → Uuid → List ℕ → Text → Query (Unit {0})
save_avatar now id image mime = call (λ db. (
  ok tt,
  with_users
      (update_where (λ (u : UserRow). u.id == id)
        (λ u. record u { avatar_data = some image; avatar_mime = some mime; updated_at = now })
        db.users)
      db,
))

-- A NULL image is read as an empty one.
abbrev avatar_of : Option UserRow → Result (List ℕ × Text)
avatar_of none = err not_found
avatar_of (some u) =
    ok (elim u.avatar_data [ none ↦ [] | some d ↦ d ], or_text (codes "image/jpeg") u.avatar_mime)

unfoldable pub get_avatar : Uuid → Query (List ℕ × Text)
get_avatar id = read (λ db. avatar_of (user_with id db))

-- `strings.SplitN(query, "#", 2)` and the test of its parts.
unfoldable pub parse_query : Text → Option (Text × Text)
unfolding cut
parse_query q = elim (cut b'#' q) [
  | none ↦ none
  | some (username, tag) ↦ if is_empty tag then none else some (username, tag)
]

abbrev pub is_match : (Text → Text → Bool) → Text → Text → Uuid → UserRow → Bool
is_match ilike username tag exclude u =
    not (u.id == exclude) && ilike u.username username && text_eq u.tag tag

unfoldable pub search : (Text → Text → Bool) → Text → Uuid → Query (List User)
unfolding parse_query user_of_row text_eq
search ilike q exclude = elim (parse_query q) [
  | none ↦ return []
  | some (username, tag) ↦
      read (λ db.
        ok (map user_of_row (take 5 (select (is_match ilike username tag exclude) db.users))))
]
