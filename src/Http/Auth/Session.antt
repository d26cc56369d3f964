-- ===== src/Http/Auth/Session.antt =====
-- What the tokens that the handlers of auth_handler.go answer with let their holder do.
use chat_back.Prelude.{
  ◌+◌, ◌≤◌, ◌≡◌, ◌++◌, ◌∙◌, refl, true, false, some, none, arith, Bool-cases, Option-cases, inl,
  inr,
}
use chat_back.Text.{Text}
use chat_back.Text.Split.{strip_prefix}
use chat_back.Domain.{Time}
use chat_back.Store.{UserRow, World, Db, online, next_fails, later_faults}
use chat_back.Postgres.InviteRepo.{user_with}
use chat_back.Auth.{Jwt, JwtLaws, second, bearer, extract_token, authenticate, validate_token}
use chat_back.Auth.Tokens.{
  TokenPair, issue_tokens, issue_tokens_signs, demo_token, access_time, refresh_time, demo_time,
  person, validate-sign, validate_expired,
}
use chat_back.Http.{given, answer}
use chat_back.Http.Auth.{
  Bcrypt, LoginRequest, DemoSession, login, refresh, demo, user_by_email, select_by_email,
  select_by_id,
}

module _ (j : Jwt) where
  -- The tokens are a user's: the first with their right for a quarter of an hour, the second
  -- without it.
  abbrev pub IsSession : Time → UserRow → TokenPair → Type 0
  IsSession now u p =
      (later : Time) (query : Text)
      → ((later + second ≤ now + access_time)
          → authenticate j later (bearer ++ p.access_token) query
            ≡ some (person u.id u.username u.is_admin))
        × ((now + access_time ≤ later)
            → authenticate j later (bearer ++ p.access_token) query ≡ none)

  authenticate-bearer :
      (now : Time) (t query : Text)
      → authenticate j now (bearer ++ t) query ≡ validate_token j now t
  unfolding authenticate extract_token strip_prefix
  authenticate-bearer now t query = refl

  issue_tokens-IsSession :
      (l : JwtLaws j) (now : Time) (u : UserRow) (p : TokenPair)
      → issue_tokens j now u.id u.username u.is_admin ≡ some p
      → IsSession now u p
  issue_tokens-IsSession l now u p e later query =
      let (access, _) = issue_tokens_signs j now u.id u.username u.is_admin p e in
      rw (authenticate-bearer later p.access_token query) (
        validate-sign j l now later access_time u.id u.username u.is_admin p.access_token access,
        validate_expired j l now later access_time u.id u.username u.is_admin p.access_token access,
      )

  login_ok :
      (b : Bcrypt) (now : Time) (req : LoginRequest) (w : World) (p : TokenPair)
      → (login j b now (given req) w).0 ≡ answer 200 p
      → (u : UserRow) × (user_by_email req.email w.db ≡ some u)
        × (b.is_hash_of u.password req.password ≡ true)
        × (issue_tokens j now u.id u.username u.is_admin ≡ some p)
  unfolding login select_by_email
  login_ok b now req w p e = elim (Bool-cases (next_fails w.faults)) [
    | inl lost ↦ absurd (ground arith)
    | inr reached ↦ elim (Option-cases (user_by_email req.email w.db)) [
      | inl missing ↦ absurd (ground arith)
      | inr (u, found) ↦ elim (Bool-cases (b.is_hash_of u.password req.password)) [
        | inl same ↦ elim (Option-cases (issue_tokens j now u.id u.username u.is_admin)) [
          | inl failed ↦ absurd (ground arith)
          | inr (q, issued) ↦ (u, found, same, ground arith)
        ]
        | inr differs ↦ absurd (ground arith)
      ]
    ]
  ]

  -- A login answered by 200 is that of a user with the address, whose hash the password has; the
  -- access token is theirs for fifteen minutes. No login changes a table.
  pub login_sound :
      (l : JwtLaws j) (b : Bcrypt) (now : Time) (req : LoginRequest) (w : World) (p : TokenPair)
      → (login j b now (given req) w).0 ≡ answer 200 p
      → (u : UserRow) × (user_by_email req.email w.db ≡ some u)
        × (b.is_hash_of u.password req.password ≡ true)
        × ((login j b now (given req) w).1.db ≡ w.db)
        × IsSession now u p
  unfolding login select_by_email
  login_sound l b now req w p e =
      let (u, found, same, issued) = login_ok b now req w p e in
      (u, found, same, ground arith, issue_tokens-IsSession l now u p issued)

  -- The refresh token of a session is let in by `Authenticate` for seven days, as that of a user
  -- who is no admin; presented to `refresh` it gives tokens with the rights that the user's row
  -- now has, as long as there is a row.
  pub refresh_restores :
      (l : JwtLaws j) (now later : Time) (u : UserRow) (p : TokenPair) (query : Text) (db : Db)
      (v : UserRow) (q : TokenPair)
      → issue_tokens j now u.id u.username u.is_admin ≡ some p
      → later + second ≤ now + refresh_time
      → user_with u.id db ≡ some v
      → issue_tokens j later v.id v.username v.is_admin ≡ some q
      → (authenticate j later (bearer ++ p.refresh_token) query
          ≡ some (person u.id u.username false))
        × (refresh j later (some p.refresh_token) (online db) ≡ (answer 200 q, online db))
        × IsSession later v q
  unfolding refresh select_by_id next_fails later_faults
  refresh_restores l now later u p query db v q issued early found again =
      let (_, signed) = issue_tokens_signs j now u.id u.username u.is_admin p issued in
      let valid =
        validate-sign j l now later refresh_time u.id u.username false p.refresh_token signed
          early in
      (
        authenticate-bearer later p.refresh_token query ∙ valid,
        rw (refresh, valid) (ground arith),
        issue_tokens-IsSession l later v q again,
      )

  -- Whatever the row says, the holder of a demo token is no admin, and for half an hour at most.
  pub demo_sound :
      (l : JwtLaws j) (email : Text) (now until : Time) (w : World) (s : DemoSession)
      → (demo j email now until w).0 ≡ answer 200 s
      → (u : UserRow) × (user_by_email email w.db ≡ some u)
        × (((later : Time) (query : Text)
            → ((later + second ≤ now + demo_time)
                → authenticate j later (bearer ++ s.token) query
                  ≡ some (person u.id u.username false))
              × ((now + demo_time ≤ later)
                  → authenticate j later (bearer ++ s.token) query ≡ none)))
  unfolding demo select_by_email demo_token
  demo_sound l email now until w s e = elim (Bool-cases (next_fails w.faults)) [
    | inl lost ↦ absurd (ground arith)
    | inr reached ↦ elim (Option-cases (user_by_email email w.db)) [
      | inl missing ↦ absurd (ground arith)
      | inr (u, found) ↦ elim (Option-cases (demo_token j now u.id u.username)) [
        | inl failed ↦ absurd (ground arith)
        | inr (t, signed) ↦
            let same : s.token ≡ t = ground arith in
            (
              u,
              found,
              λ later query.
                  rw (same, authenticate-bearer later t query)
                    (
                      validate-sign j l now later demo_time u.id u.username false t signed,
                      validate_expired j l now later demo_time u.id u.username false t signed,
                    ),
            )
      ]
    ]
  ]
