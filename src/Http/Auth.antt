-- ===== src/Http/Auth.antt =====
-- internal/adapter/inbound/http/auth_handler.go. bcrypt is an interface; what a request's random
-- salt makes of a hash is in the function `hash`.
pub mod Session
pub mod Register
use chat_back.Prelude.{
  ℕ, ◌+◌, ◌-◌, ◌/◌, ◌≡◌, Bool, true, false, List, Option, none, some, ◌==◌, ◌||◌, if◌then◌else◌,
  find_row,
}
use chat_back.Text.{Text, text_eq, is_empty}
use chat_back.Domain.{
  Uuid, Time, Error, driver, no_rows, unique_violation, Constraint, users_username_key,
  users_email_key,
}
use chat_back.Store.{UserRow, Db, World, Result, ok, err, Query, call, read}
use chat_back.Ws.Protocol.{literal}
use chat_back.Postgres.UserRepo.{new_user, insert_user}
use chat_back.Postgres.InviteRepo.{user_with}
use chat_back.Auth.{Jwt, second, validate_token}
use chat_back.Auth.Tag.{generate_unique_tag}
use chat_back.Auth.Tokens.{TokenPair, issue_tokens, demo_token, demo_time}
use chat_back.Http.{Param, absent, malformed, given, Response, answer, fail}

-- `GenerateFromPassword` and, for a nil error, `CompareHashAndPassword`.
pub record Bcrypt : Type 0 where
  pub hash : Text → Option Text
  pub is_hash_of : Text → Text → Bool

-- A hash is the hash of the password that it was made of.
pub record BcryptLaws (b : Bcrypt) : Type 0 where
  pub is_hash-hash : (p h : Text) → b.hash p ≡ some h → b.is_hash_of h p ≡ true

pub record RegisterRequest : Type 0 where
  pub username : Text
  pub email : Text
  pub password : Text

pub record LoginRequest : Type 0 where
  pub email : Text
  pub password : Text

abbrev or_no_rows : Option UserRow → Result UserRow
or_no_rows none = err (driver no_rows)
or_no_rows (some u) = ok u

abbrev pub user_by_email : Text → Db → Option UserRow
user_by_email email db = find_row (λ (u : UserRow). text_eq u.email email) db.users

-- The columns that the handlers scan are those of the row. That PostgreSQL refuses an address with
-- U+0000 is not written out: no row has one, and the handlers answer any error alike.
unfoldable pub select_by_email : Text → Query UserRow
unfolding text_eq
select_by_email email = read (λ db. or_no_rows (user_by_email email db))

unfoldable pub select_by_id : Uuid → Query UserRow
select_by_id id = read (λ db. or_no_rows (user_with id db))

-- The body is the access token, the cookie that `setRefreshCookie` sets the refresh token.
abbrev send_tokens : ℕ → Option TokenPair → Response TokenPair
send_tokens status none = fail 500 (literal "internal")
send_tokens status (some p) = answer status p

-- `errors.As(err, &pgErr) && pgErr.Code == "23505"`
abbrev fail_insert : Error → Response TokenPair
fail_insert (driver (unique_violation users_username_key)) =
    fail 409 (literal "username already taken")
fail_insert (driver (unique_violation users_email_key)) = fail 409 (literal "email already in use")
fail_insert (driver (unique_violation _)) = fail 409 (literal "username or email already exists")
fail_insert _ = fail 500 (literal "internal")

abbrev unauthorized_by : {A : Type 0} → Response A
unauthorized_by = fail 401 (literal "invalid credentials")

module _ (j : Jwt) (b : Bcrypt) where
  abbrev pub after_insert :
      Time → Uuid → Text → Result (Unit {0}) × World → Response TokenPair × World
  after_insert later id username (ok _, w) =
      (send_tokens 201 (issue_tokens j later id username false), w)
  after_insert later id username (err e, w) = (fail_insert e, w)

  abbrev after_tag :
      Uuid → Time → Time → RegisterRequest → Text → Result Text × World → Response TokenPair × World
  after_tag new_id now later req hash (ok tag, w) =
      after_insert later new_id req.username
        (call (insert_user (new_user now new_id req.username req.email hash tag)) w)
  after_tag new_id now later req hash (err _, w) = (fail 500 (literal "internal"), w)

  -- `now` is the database's time, `later` that of the tokens.
  unfoldable pub register :
      Uuid → List ℕ → Time → Time → Param RegisterRequest → World → Response TokenPair × World
  unfolding generate_unique_tag insert_user issue_tokens
  register new_id draws now later (given req) w =
      if is_empty req.username || is_empty req.email || is_empty req.password
      then (fail 400 (literal "missing fields"), w)
      else elim (b.hash req.password) [
        | none ↦ (fail 500 (literal "internal"), w)
        | some hash ↦ after_tag new_id now later req hash (generate_unique_tag draws w)
      ]
  register new_id draws now later _ w = (fail 400 (literal "invalid body"), w)

  abbrev pub check_password : Time → Text → Result UserRow → Response TokenPair
  check_password now password (ok u) =
      if b.is_hash_of u.password password
      then send_tokens 200 (issue_tokens j now u.id u.username u.is_admin)
      else unauthorized_by
  check_password now password (err _) = unauthorized_by

  unfoldable pub login : Time → Param LoginRequest → World → Response TokenPair × World
  unfolding select_by_email issue_tokens
  login now (given req) w =
      let (r, w') = select_by_email req.email w in (check_password now req.password r, w')
  login now _ w = (fail 400 (literal "invalid body"), w)

pub record DemoSession : Type 0 where
  pub token : Text
  pub expires_in : ℕ
  pub expires_at : Time

module _ (j : Jwt) where
  abbrev renew : Time → Result UserRow → Response TokenPair
  renew now (ok u) = send_tokens 200 (issue_tokens j now u.id u.username u.is_admin)
  renew now (err _) = fail 401 (literal "user not found")

  -- The argument is the cookie of the request.
  unfoldable pub refresh : Time → Option Text → World → Response TokenPair × World
  unfolding validate_token select_by_id issue_tokens
  refresh now none w = (fail 401 (literal "no refresh token"), w)
  refresh now (some cookie) w = elim (validate_token j now cookie) [
    | none ↦ (fail 401 (literal "invalid refresh token"), w)
    | some who ↦ (let (r, w') = select_by_id who.user_id w in (renew now r, w'))
  ]

  abbrev demo_session : Time → Time → Option Text → Response DemoSession
  demo_session now later none = fail 500 (literal "internal")
  demo_session now later (some t) = answer 200 (record {
    token = t;
    expires_in = (now + demo_time - later) / second;
    expires_at = now + demo_time;
  })

  abbrev start_demo : Time → Time → Result UserRow → Response DemoSession
  start_demo now later (ok u) = demo_session now later (demo_token j now u.id u.username)
  start_demo now later (err _) = fail 503 (literal "demo not available")

  -- `later` is the time of `time.Until`.
  unfoldable pub demo : Text → Time → Time → World → Response DemoSession × World
  unfolding select_by_email demo_token
  demo demo_email now later w =
      let (r, w') = select_by_email demo_email w in (start_demo now later r, w')
