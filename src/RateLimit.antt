-- ===== src/RateLimit.antt =====
-- internal/middleware/ratelimit.go: the token buckets, one for each client address.
-- A `time.Time` is the number of nanoseconds since Go's zero time, so `IsZero` is `== 0`. What the
-- clock returns is an argument: `since` is the reading that `time.Since` takes, `now` that of
-- `time.Now`.
pub mod Refill
pub mod Trace
pub mod Window
pub mod Cleanup
pub mod Client
pub mod Forged
use chat_back.Prelude.{
  ℕ, ◌-◌, ◌+◌, ◌*◌, ◌/◌, ◌<◌, Bool, true, false, Option, none, some, List, [], ◌∷◌, ltb, ◌==◌,
  if◌then◌else◌,
}
use chat_back.Text.{Text, text_eq}

pub record Bucket : Type 0 where
  pub tokens : ℕ
  pub last_seen : ℕ

-- The buckets are a Go map with string keys: a function to an optional bucket.
pub record TokenBucket : Type 0 where
  pub buckets : Text → Option Bucket
  pub capacity : ℕ
  pub refill_per : ℕ

unfoldable pub new_token_bucket : ℕ → ℕ → TokenBucket
new_token_bucket capacity per = record {
  buckets = λ _. none;
  capacity = capacity;
  refill_per = per;
}

-- The largest `time.Duration`, at which `time.Since` stops.
abbrev pub max_duration : ℕ
max_duration = 9223372036854775807

unfoldable pub min_int : ℕ → ℕ → ℕ
min_int a b = if ltb a b then a else b

unfoldable pub time_since : ℕ → ℕ → ℕ
unfolding min_int
time_since now t = min_int (now - t) max_duration

-- The bucket of the key, or a new full one whose `lastSeen` is the zero time.
unfoldable pub bucket_or_new : ℕ → Option Bucket → Bucket
bucket_or_new capacity none = record { tokens = capacity; last_seen = 0 }
bucket_or_new capacity (some b) = b

-- A limiter of which Go's 64-bit `int` keeps count: `refill` neither divides by nought nor wraps.
abbrev pub IsCounted : ℕ → ℕ → Type 0
IsCounted capacity per =
    (0 < capacity) × (0 < per) × (capacity + max_duration / per < 9223372036854775808)

-- The numbers are those of Go for the limiters that `IsCounted` admits, as those of the server are.
unfoldable pub refill : ℕ → ℕ → ℕ → ℕ → Bucket → Bucket
unfolding time_since
refill capacity per since now b =
    let refilled = time_since since b.last_seen / per in
    if ltb 0 refilled
    then record { tokens = min_int capacity (b.tokens + refilled); last_seen = now }
    else b

-- `if b.tokens <= 0 { return false }` and what follows.
unfoldable pub spend : ℕ → Bucket → Bucket × Bool
spend now b = if b.tokens == 0 then (b, false) else (
  record { tokens = b.tokens - 1; last_seen = if b.last_seen == 0 then now else b.last_seen },
  true,
)

unfoldable pub take_token : ℕ → ℕ → ℕ → ℕ → Option Bucket → Bucket × Bool
unfolding bucket_or_new refill spend
take_token capacity per since now o =
    spend now (refill capacity per since now (bucket_or_new capacity o))

unfoldable pub set_bucket : Text → Option Bucket → (Text → Option Bucket) → Text → Option Bucket
set_bucket key o m k = if text_eq k key then o else m k

-- `allow`, which runs under the mutex from its first line to its last.
unfoldable pub allow : Text → ℕ → ℕ → TokenBucket → TokenBucket × Bool
unfolding take_token set_bucket
allow key since now tb =
    let (b, allowed) = take_token tb.capacity tb.refill_per since now (tb.buckets key) in
    (record tb { buckets = set_bucket key (some b) tb.buckets }, allowed)

-- `10*time.Minute`
abbrev pub idle_limit : ℕ
idle_limit = 600000000000

unfoldable pub is_stale : ℕ → Bucket → Bool
unfolding time_since
is_stale now b = ltb idle_limit (time_since now b.last_seen)

unfoldable pub sweep : ℕ → Option Bucket → Option Bucket
unfolding is_stale
sweep now none = none
sweep now (some b) = if is_stale now b then none else some b

-- One tick of the cleanup goroutine: the loop deletes each stale bucket, whatever the order.
unfoldable pub cleanup : ℕ → TokenBucket → TokenBucket
unfolding sweep
cleanup now tb = record tb { buckets = λ k. sweep now (tb.buckets k) }
