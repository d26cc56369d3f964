-- ===== src/Tests/Accounts/Signed.antt =====
-- A concrete signature, hash and user.
use chat_back.Prelude.{
  ℕ, suc, ◌+◌, ◌-◌, ◌≤◌, ◌≡◌, refl, subst, arith, true, false, Bool, [], ◌∷◌, ◌++◌, map, Option,
  some, none, ltb, ◌==◌, if◌then◌else◌, contains,
}
use chat_back.Text.{Text, text_eq, text_eq_refl}
use chat_back.Text.Split.{cut, cut-append, Lacks}
use chat_back.Domain.{Uuid, Time}
use chat_back.Store.{UserRow, Db}
use chat_back.Auth.{Claims, Jwt, JwtLaws, second, SameUser}
use chat_back.Http.Auth.{Bcrypt, BcryptLaws}
use chat_back.Tests.Sample.{book, user_row}

abbrev pub bit : Bool → ℕ
bit true = 1
bit false = 0

abbrev pub sign : Claims → Option Text
sign c = some (c.expires_at ∷ c.issued_at ∷ bit c.is_admin ∷ (map suc c.subject ++ 0 ∷ c.username))

abbrev pub read_user : ℕ → ℕ → ℕ → Option (Text × Text) → Option Claims
read_user e i a none = none
read_user e i a (some (s, u)) = some (record {
  subject = map (λ n. n - 1) s;
  expires_at = e;
  issued_at = i;
  username = u;
  is_admin = a == 1;
})

unfoldable pub parse : Time → Text → Option Claims
unfolding cut
parse now (e ∷ i ∷ a ∷ rest) = if ltb now e then read_user e i a (cut 0 rest) else none
parse now _ = none

abbrev pub read_uuid : Text → Option Uuid
read_uuid (u ∷ []) = some u
read_uuid _ = none

abbrev pub jwt : Jwt
jwt = record { sign = sign; parse = parse; uuid_string = λ u. u ∷ []; uuid_parse = read_uuid }

sucs-Lacks : (s : Text) → Lacks 0 (map suc s)
unfolding contains
sucs-Lacks [] = refl
sucs-Lacks (c ∷ s) = ground (arith, sucs-Lacks s)

preds : (s : Text) → map (λ n. n - 1) (map suc s) ≡ s
preds [] = refl
preds (c ∷ s) = ground (arith, preds s)

bit_back : (b : Bool) → (bit b == 1) ≡ b
bit_back true = refl
bit_back false = refl

abbrev encode : Claims → Text
encode c = c.expires_at ∷ c.issued_at ∷ bit c.is_admin ∷ (map suc c.subject ++ 0 ∷ c.username)

encode_back : (t : Text) (c : Claims) → sign c ≡ some t → encode c ≡ t
encode_back t c e = ground arith

parse-encode :
    (now : Time) (c : Claims)
    → now + second ≤ c.expires_at
    → (d : Claims) × (parse now (encode c) ≡ some d) × SameUser c d
unfolding parse
parse-encode now c h =
    let early : ltb now c.expires_at ≡ true = ground arith in
    rw (parse, early, cut-append 0 (map suc c.subject) c.username (sucs-Lacks c.subject))
      (
        record {
          subject = map (λ n. n - 1) (map suc c.subject);
          expires_at = c.expires_at;
          issued_at = c.issued_at;
          username = c.username;
          is_admin = bit c.is_admin == 1;
        },
        refl,
        (preds c.subject, refl, bit_back c.is_admin),
      )

parse-sign_lem :
    (now : Time) (c : Claims) (t : Text)
    → sign c ≡ some t
    → now + second ≤ c.expires_at
    → (d : Claims) × (parse now t ≡ some d) × SameUser c d
parse-sign_lem now c t e h =
    subst (λ x. (d : Claims) × (parse now x ≡ some d) × SameUser c d) (encode_back t c e)
      (parse-encode now c h)

expires_lem :
    (now : Time) (c : Claims) (t : Text) → sign c ≡ some t → c.expires_at ≤ now → parse now t ≡ none
unfolding parse
expires_lem now c t e h =
    let late : ltb now c.expires_at ≡ false = ground arith in
    subst (λ x. parse now x ≡ none) (encode_back t c e) (rw (parse, late) refl)

pub jwt-laws : JwtLaws jwt
jwt-laws = record { parse-sign = parse-sign_lem; expires = expires_lem; parse-string = λ u. refl }

abbrev pub bcrypt : Bcrypt
bcrypt = record { hash = λ p. some (1 ∷ p); is_hash_of = λ h p. text_eq h (1 ∷ p) }

pub bcrypt-laws : BcryptLaws bcrypt
bcrypt-laws = record { is_hash-hash = λ p h e. ground (arith, text_eq_refl (1 ∷ p)) }

abbrev pub address : Text
address = 101 ∷ 64 ∷ []

abbrev pub secret : Text
secret = 115 ∷ 51 ∷ []

abbrev pub eve : UserRow
eve = record (user_row 9) {
  email = address;
  password = 1 ∷ secret;
  tag = 48 ∷ 48 ∷ 48 ∷ 55 ∷ [];
  is_admin = true;
}

abbrev pub accounts : Db
accounts = record book { users = eve ∷ book.users }
