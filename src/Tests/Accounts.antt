-- ===== src/Tests/Accounts.antt =====
-- Authentication, with tokens that are their claims and hashes that are the passwords.
pub mod Signed
use chat_back.Prelude.{
  ℕ, ◌+◌, ◌≤◌, ◌≡◌, ◌≢◌, ◌⊎◌, inl, inr, refl, arith, true, false, Bool, List, [], ◌∷◌, ◌++◌, Option,
  some, none, All,
}
use chat_back.Text.{Text, is_empty, text_eq}
use chat_back.Domain.{Uuid, Time, no_unique_tag}
use chat_back.Store.{UserRow, Db, World, Result, ok, err, online, next_fails, later_faults}
use chat_back.Postgres.InviteRepo.{user_with}
use chat_back.Postgres.UserRepo.{new_user, with_users, insert_user}
use chat_back.Auth.{Jwt, second, bearer, authenticate}
use chat_back.Auth.Tag.{
  generate_unique_tag, tag_exists, generate_unique_tag_lem, has_tag, sprintf_04d, IsDrawn,
}
use chat_back.Auth.Tokens.{
  TokenPair, issue_tokens, person, demo_time, demo_token, claims_for, access_time, refresh_time,
}
use chat_back.Http.{given, answer}
use chat_back.Http.Auth.{
  LoginRequest, RegisterRequest, DemoSession, login, register, refresh, demo, user_by_email,
  select_by_email,
}
use chat_back.Http.Auth.Session.{IsSession, login_sound, refresh_restores, demo_sound}
use chat_back.Http.Auth.Register.{IsNew, register_effect, login-register, register_fails}
use chat_back.Tests.Sample.{book, world}
use chat_back.Tests.Accounts.Signed.{
  jwt, jwt-laws, bcrypt, bcrypt-laws, address, secret, eve, accounts,
}

abbrev text_of : Option Text → Text
text_of none = []
text_of (some t) = t

abbrev session_of : Time → Uuid → Text → Bool → TokenPair
session_of now user username is_admin = record {
  access_token = text_of (jwt.sign (claims_for jwt now access_time user username is_admin));
  refresh_token = text_of (jwt.sign (claims_for jwt now refresh_time user username false));
}

abbrev credentials : LoginRequest
credentials = record { email = address; password = secret }

abbrev session : TokenPair
session = session_of 40 9 eve.username true

login_sound_example :
    (u : UserRow) × (user_by_email address accounts ≡ some u)
    × (bcrypt.is_hash_of u.password secret ≡ true)
    × ((login jwt bcrypt 40 (given credentials) (online accounts)).1.db ≡ accounts)
    × IsSession jwt 40 u session
unfolding login select_by_email issue_tokens next_fails later_faults text_eq
login_sound_example = login_sound jwt jwt-laws bcrypt 40 credentials (online accounts) session refl

-- Eve is no admin any more when the tokens are renewed.
abbrev demoted : UserRow
demoted = record eve { is_admin = false }

abbrev later_accounts : Db
later_accounts = record book { users = demoted ∷ book.users }

refresh_restores_example :
    (authenticate jwt 50 (bearer ++ session.refresh_token) [] ≡ some (person 9 eve.username false))
    × (refresh jwt 50 (some session.refresh_token) (online later_accounts)
        ≡ (answer 200 (session_of 50 9 eve.username false), online later_accounts))
    × IsSession jwt 50 demoted (session_of 50 9 eve.username false)
unfolding issue_tokens
refresh_restores_example =
    refresh_restores jwt jwt-laws 40 50 eve session [] later_accounts demoted
      (session_of 50 9 eve.username false) refl (omega arith) refl refl

abbrev demo_of_eve : DemoSession
demo_of_eve = record {
  token = text_of (jwt.sign (claims_for jwt 40 demo_time 9 eve.username false));
  expires_in = 1799;
  expires_at = 40 + demo_time;
}

abbrev form : RegisterRequest
form = record { username = 102 ∷ []; email = 102 ∷ 64 ∷ []; password = secret }

-- The first draw is Eve's tag.
abbrev draws : List ℕ
draws = 6 ∷ 41 ∷ []

abbrev registered : UserRow
registered = new_user 40 20 form.username form.email (1 ∷ secret) (48 ∷ 48 ∷ 52 ∷ 50 ∷ [])

abbrev tokens : TokenPair
tokens = session_of 41 20 form.username false

generate_unique_tag_lem_example :
    ((generate_unique_tag draws (online accounts)).1 ≡ online accounts)
    × (((tag : Text) × ((generate_unique_tag draws (online accounts)).0 ≡ ok tag)
          × IsDrawn tag draws
          × (has_tag tag accounts ≡ false))
        ⊎ (((generate_unique_tag draws (online accounts)).0 ≡ err no_unique_tag)
            × All (λ d. has_tag (sprintf_04d (d + 1)) accounts ≡ true) draws))
generate_unique_tag_lem_example = generate_unique_tag_lem draws accounts

answered : (register jwt bcrypt 20 draws 40 41 (given form) (online accounts)).0 ≡ answer 201 tokens
unfolding register generate_unique_tag issue_tokens next_fails later_faults text_eq sprintf_04d
    insert_user tag_exists
answered = refl

register_effect_example :
    (hash tag : Text) × (bcrypt.hash secret ≡ some hash)
    × IsNew (new_user 40 20 form.username form.email hash tag) accounts
    × ((register jwt bcrypt 20 draws 40 41 (given form) (online accounts)).1
        ≡ online (
            with_users
              (new_user 40 20 form.username form.email hash tag ∷ accounts.users)
              accounts))
register_effect_example = register_effect jwt bcrypt 20 draws 40 41 form accounts tokens answered

login-register_example :
    let w = (register jwt bcrypt 20 draws 40 41 (given form) (online accounts)).1 in
    login jwt bcrypt 50 (given (record { email = form.email; password = form.password })) w
    ≡ (answer 200 (session_of 50 20 form.username false), w)
unfolding issue_tokens
login-register_example =
    login-register jwt bcrypt 20 draws 40 41 form accounts bcrypt-laws tokens 50
      (session_of 50 20 form.username false) answered refl

-- The name is taken.
abbrev taken : RegisterRequest
taken = record { username = eve.username; email = 102 ∷ []; password = secret }

register_fails_example :
    (register jwt bcrypt 20 draws 40 41 (given taken) (online accounts)).1.db ≡ accounts
unfolding issue_tokens register generate_unique_tag next_fails later_faults text_eq sprintf_04d
    insert_user tag_exists
register_fails_example =
    register_fails jwt bcrypt 20 draws 40 41 taken (online accounts)
      (session_of 41 20 eve.username false) refl (λ e. ground (arith, e))
