-- ===== src/RateLimit/Forged.antt =====
-- `RateLimit` against a sender who writes the header `X-Forwarded-For` as it likes.
use chat_back.Prelude.{
  ◌++◌, ◌∙◌, ap, arith, ℕ, true, false, List, [], ◌∷◌, map, Option, none, some, ◌≡◌, All,
}
use chat_back.Text.{Text, is_empty, trim_space, text_eq}
use chat_back.Text.Split.{cut-Lacks, Lacks}
use chat_back.RateLimit.{TokenBucket, IsCounted}
use chat_back.RateLimit.Client.{Request, client_ip, client_ip-append, run, IsFresh, run_fresh}

-- A request with the header `name` or `name,others`, and the readings of the clock.
pub record Forged : Type 0 where
  pub name : Text
  pub others : Option Text
  pub remote_addr : Text
  pub since : ℕ
  pub now : ℕ

abbrev pub header_of : Text → Option Text → Text
header_of name none = name
header_of name (some rest) = name ++ b',' ∷ rest

abbrev pub request_of : Forged → Request × ℕ × ℕ
request_of f =
    (record { forwarded = header_of f.name f.others; remote_addr = f.remote_addr }, f.since, f.now)

-- Names without a comma that are not empty; without the spaces around them no two are the same and
-- none has a bucket.
abbrev pub AreNames : List Forged → TokenBucket → Type 0
AreNames [] tb = Unit {0}
AreNames (f ∷ fs) tb =
    (Lacks b',' f.name × (is_empty f.name ≡ false))
    × (tb.buckets (trim_space f.name) ≡ none)
    × All (λ (g : Forged). text_eq (trim_space g.name) (trim_space f.name) ≡ false) fs
    × AreNames fs tb

module _ (split_host_port : Text → Option Text) where
  client_ip-bare :
      (name remote : Text)
      → Lacks b',' name
      → is_empty name ≡ false
      → client_ip split_host_port (record { forwarded = name; remote_addr = remote })
        ≡ trim_space name
  unfolding client_ip
  client_ip-bare name remote h e = ground (arith, cut-Lacks b',' name h)

  -- The client of a forged request is the one that it names.
  pub client_ip-request_of :
      (f : Forged)
      → Lacks b',' f.name
      → is_empty f.name ≡ false
      → client_ip split_host_port (request_of f).0 ≡ trim_space f.name
  client_ip-request_of f h e =
      elim f.others
        as (λ o.
          client_ip split_host_port
            (record { forwarded = header_of f.name o; remote_addr = f.remote_addr })
          ≡ trim_space f.name) [
            | none ↦ client_ip-bare f.name f.remote_addr h e
            | some rest ↦ client_ip-append split_host_port f.name rest f.remote_addr h
          ]

  apart :
      (f : Forged) (fs : List Forged) (tb : TokenBucket)
      → client_ip split_host_port (request_of f).0 ≡ trim_space f.name
      → All (λ (g : Forged). text_eq (trim_space g.name) (trim_space f.name) ≡ false) fs
      → AreNames fs tb
      → All
          (λ (q : Request × ℕ × ℕ).
            text_eq (client_ip split_host_port q.0) (client_ip split_host_port (request_of f).0)
            ≡ false)
          (map request_of fs)
  apart f [] tb e others names = tt
  apart f (g ∷ fs) tb e (other, others) ((lacks, filled), _, _, names) =
      (rw (client_ip-request_of g lacks filled, e) other, apart f fs tb e others names)

  names-IsFresh :
      (fs : List Forged) (tb : TokenBucket)
      → AreNames fs tb
      → IsFresh split_host_port (map request_of fs) tb
  names-IsFresh [] tb names = tt
  names-IsFresh (f ∷ fs) tb ((lacks, filled), new, others, names) =
      let e = client_ip-request_of f lacks filled in
      (ap tb.buckets e ∙ new, apart f fs tb e others names, names-IsFresh fs tb names)

-- At a limiter of which Go's integers keep count, however many they are and however fast they come,
-- from whatever addresses, requests whose headers
-- `X-Forwarded-For` begin with names of which no two are the same and none has a bucket are all let
-- through, whatever follows the names after a comma.
pub forged_admitted :
    (split_host_port : Text → Option Text) (fs : List Forged) (tb : TokenBucket)
    → IsCounted tb.capacity tb.refill_per
    → AreNames fs tb
    → All (λ b. b ≡ true) (run split_host_port (map request_of fs) tb)
forged_admitted split_host_port fs tb counted names =
    run_fresh split_host_port (map request_of fs) tb counted.0
      (names-IsFresh split_host_port fs tb names)
