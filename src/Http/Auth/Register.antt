-- ===== src/Http/Auth/Register.antt =====
-- Registration, in auth_handler.go.
use chat_back.Prelude.{
  ◌≡◌, ◌≢◌, ◌==◌, ◌||◌, ◌∷◌, false, some, List, ℕ, arith, Bool-cases, Option-cases, inl, inr,
  exists_row,
}
use chat_back.Text.{Text, text_eq, text_eq_refl, is_empty}
use chat_back.Domain.{Uuid, Time}
use chat_back.Store.{UserRow, World, Db, online, next_fails, later_faults, Result-cases, ok, call}
use chat_back.Postgres.UserRepo.{new_user, insert_user, with_users}
use chat_back.Auth.{Jwt}
use chat_back.Auth.Tag.{
  generate_unique_tag, has_tag, generate_unique_tag_lem, generate_unique_tag_keeps,
}
use chat_back.Auth.Tokens.{TokenPair, issue_tokens}
use chat_back.Http.{given, answer}
use chat_back.Http.Auth.{
  Bcrypt, BcryptLaws, RegisterRequest, register, login, select_by_email, after_insert,
}

-- A row whose name, address, tag and id no user of the tables has.
abbrev pub IsNew : UserRow → Db → Type 0
IsNew u db =
    (exists_row (λ (x : UserRow). x.id == u.id) db.users ≡ false)
    × (exists_row (λ (x : UserRow). text_eq x.username u.username) db.users ≡ false)
    × (exists_row (λ (x : UserRow). text_eq x.email u.email) db.users ≡ false)
    × (has_tag u.tag db ≡ false)

insert_user-IsNew :
    (u : UserRow) (db : Db)
    → (insert_user u db).0 ≡ ok tt
    → IsNew u db × ((insert_user u db).1 ≡ with_users (u ∷ db.users) db)
unfolding insert_user
insert_user-IsNew u db h = (ground arith, ground arith)

module _ (j : Jwt) (b : Bcrypt) (new_id : Uuid) (draws : List ℕ) (now later : Time)
    (req : RegisterRequest) (db : Db) where
  -- With the database at hand, a registration that is answered by 201 adds one user, whose
  -- id, name, address and tag no user had; and is no admin.
  pub register_effect :
      (p : TokenPair)
      → (register j b new_id draws now later (given req) (online db)).0 ≡ answer 201 p
      → (hash tag : Text) × (b.hash req.password ≡ some hash)
        × IsNew (new_user now new_id req.username req.email hash tag) db
        × ((register j b new_id draws now later (given req) (online db)).1
            ≡ online
                (with_users (new_user now new_id req.username req.email hash tag ∷ db.users) db))
  unfolding register next_fails later_faults
  register_effect p e =
      elim (Bool-cases (is_empty req.username || is_empty req.email || is_empty req.password)) [
        | inl blank ↦ absurd (ground arith)
        | inr filled ↦ elim (Option-cases (b.hash req.password)) [
          | inl failed ↦ absurd (ground arith)
          | inr (hash, hashed) ↦
              let (kept, outcome) = generate_unique_tag_lem draws db in
              elim outcome [
                | inr (failed, _) ↦ absurd (ground arith)
                | inl (tag, found, _, free) ↦
                    let u = new_user now new_id req.username req.email hash tag in
                    elim (Result-cases (insert_user u db).0) [
                      | inr (x, refused) ↦ absurd (ground arith)
                      | inl (_, done) ↦
                          let (fresh, rows) = insert_user-IsNew u db done in
                          (hash, tag, hashed, fresh, ground arith)
                    ]
              ]
        ]
      ]

  login_new :
      (l : BcryptLaws b) (t : Time) (q : TokenPair) (hash tag : Text)
      → b.hash req.password ≡ some hash
      → issue_tokens j t new_id req.username false ≡ some q
      → (let w =
            online
              (with_users (new_user now new_id req.username req.email hash tag ∷ db.users) db) in
          login j b t (given (record { email = req.email; password = req.password })) w
          ≡ (answer 200 q, w))
  unfolding login select_by_email next_fails later_faults
  login_new l t q hash tag hashed issued =
      ground (arith, text_eq_refl req.email, l.is_hash-hash req.password hash hashed)

  -- Who has been registered can log in with the address and the password, by 200 and with tokens
  -- of a user who is no admin, if these can be signed.
  pub login-register :
      (l : BcryptLaws b) (p : TokenPair) (t : Time) (q : TokenPair)
      → (register j b new_id draws now later (given req) (online db)).0 ≡ answer 201 p
      → issue_tokens j t new_id req.username false ≡ some q
      → (let w = (register j b new_id draws now later (given req) (online db)).1 in
          login j b t (given (record { email = req.email; password = req.password })) w
          ≡ (answer 200 q, w))
  login-register l p t q e issued =
      let (hash, tag, hashed, _, rows) = register_effect p e in
      rw rows (login_new l t q hash tag hashed issued)

module _ (j : Jwt) (b : Bcrypt) (later : Time) (id : Uuid) (username : Text) (p : TokenPair) where
  after_insert_fails :
      (u : UserRow) (w : World)
      → issue_tokens j later id username false ≡ some p
      → (after_insert j b later id username (call (insert_user u) w)).0 ≢ answer 201 p
      → (after_insert j b later id username (call (insert_user u) w)).1.db ≡ w.db
  unfolding insert_user
  after_insert_fails u w issued refused = ground arith

-- Where the tokens can be signed, a registration that is not answered by 201 with them changes no
-- table, whichever calls do not reach the database. A call that reaches it and of which only the
-- reply is lost is not among these.
pub register_fails :
    (j : Jwt) (b : Bcrypt) (new_id : Uuid) (draws : List ℕ) (now later : Time)
    (req : RegisterRequest) (w : World) (p : TokenPair)
    → issue_tokens j later new_id req.username false ≡ some p
    → (register j b new_id draws now later (given req) w).0 ≢ answer 201 p
    → (register j b new_id draws now later (given req) w).1.db ≡ w.db
unfolding register
register_fails j b new_id draws now later req w p issued refused =
    elim (Bool-cases (is_empty req.username || is_empty req.email || is_empty req.password)) [
      | inl blank ↦ ground arith
      | inr filled ↦ elim (Option-cases (b.hash req.password)) [
        | inl failed ↦ ground arith
        | inr (hash, hashed) ↦ elim (Result-cases (generate_unique_tag draws w).0) [
          | inr (e, failed) ↦ ground (arith, generate_unique_tag_keeps draws w)
          | inl (tag, found) ↦
              let u = new_user now new_id req.username req.email hash tag in
              let w' = (generate_unique_tag draws w).1 in
              ground (
                arith,
                generate_unique_tag_keeps draws w,
                after_insert_fails j b later new_id req.username p u w' issued,
              )
        ]
      ]
    ]
