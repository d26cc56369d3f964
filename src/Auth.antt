-- ===== src/Auth.antt =====
-- internal/middleware/jwt.go: the claims of a token, how a request carries one and what the
-- middleware takes from it. The signatures of golang-jwt under the server's RSA key, and the
-- texts of UUIDs, are an interface.
pub mod Tag
pub mod Tokens
use chat_back.Prelude.{ℕ, ◌+◌, ◌≤◌, ◌≡◌, Bool, List, [], ◌∷◌, Option, none, some, if◌then◌else◌}
use chat_back.Text.{Text, is_empty}
use chat_back.Text.Split.{codes, strip_prefix}
use chat_back.Domain.{Uuid, Time}

pub record Claims : Type 0 where
  pub subject : Text
  pub expires_at : Time
  pub issued_at : Time
  pub username : Text
  pub is_admin : Bool

-- `sign` is `SignedString` under the private key, `none` its error; `parse` is
-- `ParseWithClaims` under the public key at a time, for RS256.
pub record Jwt : Type 0 where
  pub sign : Claims → Option Text
  pub parse : Time → Text → Option Claims
  pub uuid_string : Uuid → Text
  pub uuid_parse : Text → Option Uuid

abbrev pub second : ℕ
second = 1000000000

-- Claims that say the same of the user; the dates are rounded on the way.
abbrev pub SameUser : Claims → Claims → Type 0
SameUser c d = (d.subject ≡ c.subject) × (d.username ≡ c.username) × (d.is_admin ≡ c.is_admin)

-- A signed token is read back until the second in which it expires, and not after; the text of a
-- UUID is read back.
pub record JwtLaws (j : Jwt) : Type 0 where
  pub parse-sign :
      (now : Time) (c : Claims) (t : Text)
      → j.sign c ≡ some t
      → now + second ≤ c.expires_at
      → (d : Claims) × (j.parse now t ≡ some d) × SameUser c d
  pub expires :
      (now : Time) (c : Claims) (t : Text)
      → j.sign c ≡ some t
      → c.expires_at ≤ now
      → j.parse now t ≡ none
  pub parse-string : (u : Uuid) → j.uuid_parse (j.uuid_string u) ≡ some u

-- The values that the middleware puts into the request's context.
pub record Identity : Type 0 where
  pub user_id : Uuid
  pub username : Text
  pub is_admin : Bool

abbrev pub bearer : Text
bearer = codes "Bearer "

-- The `Authorization` header, `Bearer` first, and the query value `token`.
unfoldable pub extract_token : Text → Text → Option Text
unfolding strip_prefix
extract_token authorization token = elim (strip_prefix bearer authorization) [
  | some t ↦ some t
  | none ↦ if is_empty token then none else some token
]

module _ (j : Jwt) where
  unfoldable pub identity_of : Claims → Option Identity
  identity_of c = elim (j.uuid_parse c.subject) [
    | none ↦ none
    | some u ↦ some (record { user_id = u; username = c.username; is_admin = c.is_admin })
  ]

  -- `none` is an error of `ValidateToken`.
  unfoldable pub validate_token : Time → Text → Option Identity
  unfolding identity_of
  validate_token now t = elim (j.parse now t) [ none ↦ none | some c ↦ identity_of c ]

  -- Whom `Authenticate` lets through; `none` is its 401.
  unfoldable pub authenticate : Time → Text → Text → Option Identity
  unfolding extract_token validate_token
  authenticate now authorization token = elim (extract_token authorization token) [
    | none ↦ none
    | some t ↦ validate_token now t
  ]
