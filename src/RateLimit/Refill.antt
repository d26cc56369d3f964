-- ===== src/RateLimit/Refill.antt =====
-- One request at one bucket: what a refill and a spent token do.
use chat_back.Prelude.{
  ℕ, zero, suc, ◌+◌, ◌-◌, ◌*◌, ◌/◌, ◌≤◌, ◌<◌, ◌≡◌, Bool, some, arith, refl, if◌then◌else◌,
}
use native.Mathlib.Nat.{div-mul-le_self, le-div_iff_mul-le, mul-le-mul_right}
use chat_back.RateLimit.{
  Bucket, IsCounted, max_duration, idle_limit, refill, spend, take_token, time_since, min_int,
}

abbrev pub IsFilled : ℕ → Bucket → Type 0
IsFilled capacity b = b.tokens ≤ capacity

-- The number of requests that one answer adds.
abbrev pub granted : Bool → ℕ
granted b = if b then 1 else 0

scaled : (n m r per : ℕ) → n ≤ m + r → n * per ≤ m * per + r * per
scaled n m r per h = omega (arith, mul-le-mul_right per h)

one_less : (t per : ℕ) → 0 < t → (t - 1) * per + per ≡ t * per
one_less zero per h = absurd (omega arith)
one_less (suc t) per h = let e : suc t - 1 ≡ t = omega arith in rw e (omega arith)

-- A bucket with no more tokens than the capacity keeps to it, whatever the clock says.
pub take_token-IsFilled :
    (capacity per since now : ℕ) (b : Bucket)
    → IsFilled capacity b
    → IsFilled capacity (take_token capacity per since now (some b)).0
unfolding take_token
take_token-IsFilled capacity per since now b h = ground arith

time_since-le_max : (now t : ℕ) → time_since now t ≤ max_duration
unfolding time_since min_int
time_since-le_max now t = ground arith

-- The sum that a refill forms of a bucket with no more than the capacity is an `int` of 64 bits.
pub refill_counted :
    (capacity per since : ℕ) (b : Bucket)
    → IsCounted capacity per
    → IsFilled capacity b
    → b.tokens + time_since since b.last_seen / per < 9223372036854775808
refill_counted capacity per since b (_, some_time, counted) h =
    let t = time_since since b.last_seen in
    let whole : t / per * per ≤ max_duration =
      omega (arith, div-mul-le_self t per, time_since-le_max since b.last_seen) in
    let most : t / per ≤ max_duration / per = (le-div_iff_mul-le some_time).1 whole in
    omega (arith, most)

time_since-le : (now t : ℕ) → t ≤ now → time_since now t + t ≤ now
unfolding time_since
time_since-le now t h = ground arith

time_since-ge : (now t n : ℕ) → n ≤ idle_limit → n ≤ now - t → n ≤ time_since now t
unfolding time_since
time_since-ge now t n small h = ground arith

-- Time turns into tokens at the rate of one for each `per` nanoseconds, never faster.
pub refill_pays :
    (capacity per since now : ℕ) (b : Bucket)
    → since ≤ now
    → b.last_seen ≤ since
    → (refill capacity per since now b).tokens * per + b.last_seen
      ≤ b.tokens * per + (refill capacity per since now b).last_seen
unfolding refill
refill_pays capacity per since now b h k =
    let r = time_since since b.last_seen / per in
    ground (
      arith,
      time_since-le since b.last_seen k,
      div-mul-le_self (time_since since b.last_seen) per,
      scaled (min_int capacity (b.tokens + r)) b.tokens r per,
    )

pub refill-last_seen :
    (capacity per since now : ℕ) (b : Bucket)
    → since ≤ now
    → b.last_seen ≤ since
    → (b.last_seen ≤ (refill capacity per since now b).last_seen)
      × ((refill capacity per since now b).last_seen ≤ now)
unfolding refill
refill-last_seen capacity per since now b h k = ground arith

-- A granted request costs one token, and a refused one costs none.
pub spend_costs :
    (now per : ℕ) (b : Bucket)
    → (spend now b).0.tokens * per + granted (spend now b).1 * per ≡ b.tokens * per
unfolding spend
spend_costs now per b = ground (arith, one_less b.tokens per)

pub spend-last_seen :
    (now : ℕ) (b : Bucket) → 0 < b.last_seen → (spend now b).0.last_seen ≡ b.last_seen
unfolding spend
spend-last_seen now b h = ground arith

spend_pays :
    (now per : ℕ) (b b' : Bucket)
    → b'.tokens * per + b.last_seen ≤ b.tokens * per + b'.last_seen
    → b.last_seen ≤ b'.last_seen
    → b'.last_seen ≤ now
    → 0 < b.last_seen
    → let (b'', allowed) = spend now b' in
      (granted allowed * per + b''.tokens * per + b.last_seen ≤ b.tokens * per + b''.last_seen)
      × (b.last_seen ≤ b''.last_seen)
      × (b''.last_seen ≤ now)
spend_pays now per b b' pays le later pos =
    omega (arith, spend_costs now per b', spend-last_seen now b')

pub refill_restarts :
    (capacity per since now : ℕ) (b : Bucket)
    → 0 < per
    → per ≤ idle_limit
    → per ≤ since - b.last_seen
    → ((refill capacity per since now b).tokens ≤ capacity)
      × ((refill capacity per since now b).last_seen ≡ now)
unfolding refill time_since
refill_restarts capacity per since now b p small gone =
    let some_token : 0 < time_since since b.last_seen / per =
      (le-div_iff_mul-le p).1 (omega (arith, time_since-ge since b.last_seen per small gone)) in
    ground arith

pub take_token_lem :
    (capacity per since now : ℕ) (b : Bucket)
    → take_token capacity per since now (some b) ≡ spend now (refill capacity per since now b)
unfolding take_token
take_token_lem capacity per since now b = refl

-- One request: what it is granted is paid for by the tokens that go and the time that passes.
pub take_token_pays :
    (capacity per since now : ℕ) (b : Bucket)
    → since ≤ now
    → b.last_seen ≤ since
    → 0 < b.last_seen
    → let (b', allowed) = take_token capacity per since now (some b) in
      (granted allowed * per + b'.tokens * per + b.last_seen ≤ b.tokens * per + b'.last_seen)
      × (b.last_seen ≤ b'.last_seen)
      × (b'.last_seen ≤ now)
unfolding take_token
take_token_pays capacity per since now b h k z =
    let later = refill-last_seen capacity per since now b h k in
    rw take_token_lem (
      spend_pays now per b (refill capacity per since now b)
        (refill_pays capacity per since now b h k) later.0 later.1 z)
