-- ===== src/Auth/Tokens.antt =====
-- The tokens of a session: what `issueTokens` and `demo` of auth_handler.go sign.
use chat_back.Prelude.{
  ℕ, ◌+◌, ◌*◌, ◌≤◌, ◌≡◌, refl, Bool, false, Option, none, some, arith, Option-cases, inl, inr,
}
use chat_back.Text.{Text}
use chat_back.Domain.{Uuid, Time}
use chat_back.Auth.{Claims, Jwt, JwtLaws, Identity, second, SameUser, identity_of, validate_token}

abbrev pub minute : ℕ
minute = 60 * second

-- `15 * time.Minute`
abbrev pub access_time : ℕ
access_time = 15 * minute

-- `7 * 24 * time.Hour`
abbrev pub refresh_time : ℕ
refresh_time = 7 * 24 * 60 * minute

-- `30 * time.Minute`
abbrev pub demo_time : ℕ
demo_time = 30 * minute

pub record TokenPair : Type 0 where
  pub access_token : Text
  pub refresh_token : Text

abbrev pub person : Uuid → Text → Bool → Identity
person user username is_admin = record { user_id = user; username = username; is_admin = is_admin }

module _ (j : Jwt) where
  abbrev pub claims_for : Time → ℕ → Uuid → Text → Bool → Claims
  claims_for now life user username is_admin = record {
    subject = j.uuid_string user;
    expires_at = now + life;
    issued_at = now;
    username = username;
    is_admin = is_admin;
  }

  -- `none` is an error of the signature.
  unfoldable pub issue_tokens : Time → Uuid → Text → Bool → Option TokenPair
  issue_tokens now user username is_admin =
      elim (j.sign (claims_for now access_time user username is_admin)) [
        | none ↦ none
        | some access ↦ elim (j.sign (claims_for now refresh_time user username false)) [
          | none ↦ none
          | some refresh ↦ some (record { access_token = access; refresh_token = refresh })
        ]
      ]

  unfoldable pub demo_token : Time → Uuid → Text → Option Text
  demo_token now user username = j.sign (claims_for now demo_time user username false)

  identity_of_same :
      (l : JwtLaws j) (user : Uuid) (c d : Claims)
      → c.subject ≡ j.uuid_string user
      → SameUser c d
      → identity_of j d ≡ some (person user c.username c.is_admin)
  unfolding identity_of
  identity_of_same l user c d e (s, n, a) = rw (identity_of, s, e, l.parse-string user, n, a) refl

  -- A token for claims of a user that has not expired is that user's.
  pub validate-sign :
      (l : JwtLaws j) (now later : Time) (life : ℕ) (user : Uuid) (username : Text)
      (is_admin : Bool) (t : Text)
      → j.sign (claims_for now life user username is_admin) ≡ some t
      → later + second ≤ now + life
      → validate_token j later t ≡ some (person user username is_admin)
  unfolding validate_token
  validate-sign l now later life user username is_admin t e h =
      let c = claims_for now life user username is_admin in
      let (d, parsed, same) = l.parse-sign later c t e h in
      rw (validate_token, parsed) (identity_of_same l user c d refl same)

  pub validate_expired :
      (l : JwtLaws j) (now later : Time) (life : ℕ) (user : Uuid) (username : Text)
      (is_admin : Bool) (t : Text)
      → j.sign (claims_for now life user username is_admin) ≡ some t
      → now + life ≤ later
      → validate_token j later t ≡ none
  unfolding validate_token
  validate_expired l now later life user username is_admin t e h =
      rw (validate_token, l.expires later (claims_for now life user username is_admin) t e h) refl

  pub issue_tokens_signs :
      (now : Time) (user : Uuid) (username : Text) (is_admin : Bool) (p : TokenPair)
      → issue_tokens now user username is_admin ≡ some p
      → (j.sign (claims_for now access_time user username is_admin) ≡ some p.access_token)
        × (j.sign (claims_for now refresh_time user username false) ≡ some p.refresh_token)
  unfolding issue_tokens
  issue_tokens_signs now user username is_admin p e =
      elim (Option-cases (j.sign (claims_for now access_time user username is_admin))) [
        | inl missing ↦ absurd (ground arith)
        | inr (a, signed) ↦
            elim (Option-cases (j.sign (claims_for now refresh_time user username false))) [
              | inl missing ↦ absurd (ground arith)
              | inr (r, also) ↦ (ground arith, ground arith)
            ]
      ]
