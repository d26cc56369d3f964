-- ===== src/RateLimit/Client.antt =====
-- `clientIP` and `RateLimit` of ratelimit.go: whose bucket a request takes its token from.
-- `net.SplitHostPort` is a parameter: the host of an address with a port.
use chat_back.Prelude.{
  ◌++◌, ◌∙◌, ℕ, Bool, true, false, List, [], ◌∷◌, Option, none, some, ◌≡◌, ◌<◌, if◌then◌else◌,
  arith, All,
}
use chat_back.Text.{Text, is_empty, trim_space, text_eq}
use chat_back.Text.Split.{cut, cut-append, Lacks}
use chat_back.RateLimit.{
  TokenBucket, Bucket, allow, take_token, set_bucket, bucket_or_new, refill, spend, min_int,
}

pub record Request : Type 0 where
  -- The header `X-Forwarded-For`.
  pub forwarded : Text
  pub remote_addr : Text

refill_full :
    (capacity per since now : ℕ)
    → (refill capacity per since now (record { tokens = capacity; last_seen = 0 })).tokens
      ≡ capacity
unfolding refill min_int
refill_full capacity per since now = ground arith

spend_allowed : (now : ℕ) (b : Bucket) → 0 < b.tokens → (spend now b).1 ≡ true
unfolding spend
spend_allowed now b h = ground arith

take_token_new :
    (capacity per since now : ℕ) → 0 < capacity → (take_token capacity per since now none).1 ≡ true
unfolding take_token bucket_or_new
take_token_new capacity per since now h =
    spend_allowed now _ (ground (arith, refill_full capacity per since now))

module _ (split_host_port : Text → Option Text) where
  unfoldable pub client_ip : Request → Text
  unfolding cut trim_space
  client_ip r =
      if is_empty r.forwarded
      then elim (split_host_port r.remote_addr) [ none ↦ r.remote_addr | some host ↦ host ]
      else elim (cut b',' r.forwarded) [
        | none ↦ trim_space r.forwarded
        | some (first, _) ↦ trim_space first
      ]

  -- Whether the handler behind the limit is called; if not the answer is 429.
  unfoldable pub rate_limit : Request → ℕ → ℕ → TokenBucket → TokenBucket × Bool
  unfolding client_ip allow
  rate_limit r since now tb = allow (client_ip r) since now tb

  -- A request names its client with the first entry of the header, whoever sent it.
  pub client_ip-append :
      (first rest remote : Text)
      → Lacks b',' first
      → client_ip (record { forwarded = first ++ b',' ∷ rest; remote_addr = remote })
        ≡ trim_space first
  unfolding client_ip
  client_ip-append [] rest remote h = ground (arith, cut-append b',' [] rest h)
  client_ip-append (c ∷ first) rest remote h = ground (arith, cut-append b',' (c ∷ first) rest h)

  -- A run of requests, each with the readings of the clock, and the answers.
  unfoldable pub run : List (Request × ℕ × ℕ) → TokenBucket → List Bool
  unfolding rate_limit
  run [] tb = []
  run ((r, since, now) ∷ rs) tb =
      let (tb', allowed) = rate_limit r since now tb in allowed ∷ run rs tb'

  -- Requests whose client is none of the limiter's, and no two the same.
  abbrev pub IsFresh : List (Request × ℕ × ℕ) → TokenBucket → Type 0
  IsFresh [] tb = Unit {0}
  IsFresh ((r, _, _) ∷ rs) tb =
      (tb.buckets (client_ip r) ≡ none)
      × All (λ (q : Request × ℕ × ℕ). text_eq (client_ip q.0) (client_ip r) ≡ false) rs
      × IsFresh rs tb

  rate_limit_fresh :
      (r : Request) (since now : ℕ) (tb : TokenBucket)
      → 0 < tb.capacity
      → tb.buckets (client_ip r) ≡ none
      → (rate_limit r since now tb).1 ≡ true
  unfolding rate_limit allow
  rate_limit_fresh r since now tb h fresh =
      rw (rate_limit, allow, fresh) (take_token_new tb.capacity tb.refill_per since now h)

  rate_limit_keeps :
      (r : Request) (since now : ℕ) (tb : TokenBucket) (key : Text)
      → text_eq key (client_ip r) ≡ false
      → (rate_limit r since now tb).0.buckets key ≡ tb.buckets key
  unfolding rate_limit allow set_bucket
  rate_limit_keeps r since now tb key h = ground arith

  rate_limit-IsFresh :
      (r : Request) (since now : ℕ) (tb : TokenBucket) (rs : List (Request × ℕ × ℕ))
      → All (λ (q : Request × ℕ × ℕ). text_eq (client_ip q.0) (client_ip r) ≡ false) rs
      → IsFresh rs tb
      → IsFresh rs (rate_limit r since now tb).0
  rate_limit-IsFresh r since now tb [] apart fresh = tt
  rate_limit-IsFresh r since now tb ((q, _, _) ∷ qs) (other, others) (new, distinct, later) = (
    rate_limit_keeps r since now tb (client_ip q) other ∙ new,
    distinct,
    rate_limit-IsFresh r since now tb qs others later,
  )

  -- However many they are and however fast they come, requests that each name a client of their
  -- own in the header are all let through.
  pub run_fresh :
      (rs : List (Request × ℕ × ℕ)) (tb : TokenBucket)
      → 0 < tb.capacity
      → IsFresh rs tb
      → All (λ b. b ≡ true) (run rs tb)
  unfolding run
  run_fresh [] tb h fresh = tt
  run_fresh ((r, since, now) ∷ rs) tb h (new, distinct, later) = (
    rate_limit_fresh r since now tb h new,
    run_fresh rs (rate_limit r since now tb).0 (unfold rate_limit allow in h)
        (rate_limit-IsFresh r since now tb rs distinct later),
  )
