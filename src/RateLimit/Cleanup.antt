-- ===== src/RateLimit/Cleanup.antt =====
-- What the cleanup goroutine may forget: a stale bucket and no bucket answer alike when the bucket
-- refills within the idle limit.
use chat_back.Prelude.{
  ℕ, ◌+◌, ◌-◌, ◌*◌, ◌/◌, ◌≤◌, ◌<◌, ◌≡◌, true, Option, none, some, arith, refl, sym, ap, ◌∙◌,
  Bool-cases, inl, inr,
}
use native.Mathlib.Nat.{le-div_iff_mul-le, le_trans, div-mul-le_self, lt_of_mul-lt-mul_right}
use chat_back.RateLimit.{
  Bucket, max_duration, idle_limit, is_stale, sweep, refill, spend, take_token, time_since,
}
use chat_back.RateLimit.Refill.{granted}

-- The refill of a bucket that has been idle long enough is complete.
pub refill_full :
    (capacity per since now : ℕ) (b : Bucket)
    → 0 < per
    → 0 < capacity
    → capacity * per ≤ time_since since b.last_seen
    → refill capacity per since now b ≡ record { tokens = capacity; last_seen = now }
unfolding refill
refill_full capacity per since now b p c h = ground (arith, (le-div_iff_mul-le p).1 h)

pub stale_idle :
    (now since : ℕ) (b : Bucket)
    → is_stale now b ≡ true
    → now ≤ since
    → idle_limit ≤ time_since since b.last_seen
unfolding is_stale
stale_idle now since b h le = ground arith

reach : (since n : ℕ) → n ≤ since → n ≤ max_duration → n ≤ time_since since 0
unfolding time_since
reach since n h k = ground arith

pub time_since-le-sub : (since t : ℕ) → time_since since t ≤ since - t
unfolding time_since
time_since-le-sub since t = ground arith

pub spend_total :
    (now : ℕ) (b : Bucket) → granted (spend now b).1 + (spend now b).0.tokens ≡ b.tokens
unfolding spend
spend_total now b = ground arith

long_since_zero : (since : ℕ) → idle_limit ≤ since → idle_limit ≤ time_since since 0
unfolding time_since
long_since_zero since h = ground arith

-- A request of a new key starts from a full bucket at the time of the request.
pub refill_new :
    (capacity per since now : ℕ)
    → 0 < per
    → 0 < capacity
    → capacity * per ≤ idle_limit
    → idle_limit ≤ since
    → refill capacity per since now (record { tokens = capacity; last_seen = 0 })
      ≡ record { tokens = capacity; last_seen = now }
refill_new capacity per since now p c small late =
    refill_full capacity per since now (record { tokens = capacity; last_seen = 0 }) p c
      (omega (arith, long_since_zero since late))

pub take_token_new :
    (capacity per since now : ℕ)
    → 0 < per
    → 0 < capacity
    → capacity * per ≤ idle_limit
    → idle_limit ≤ since
    → take_token capacity per since now none
      ≡ spend now (record { tokens = capacity; last_seen = now })
unfolding take_token
take_token_new capacity per since now p c small late =
    ap (spend now) (refill_new capacity per since now p c small late)

-- Where a bucket refills within ten minutes (`capacity * per` is at most the idle limit), the
-- cleanup is invisible: after it has dropped a bucket, the next request of the key, at any later
-- time, is answered as it would have been and leaves the same bucket.
pub take_token-sweep :
    (capacity per tick since now : ℕ) (o : Option Bucket)
    → 0 < per
    → 0 < capacity
    → capacity * per ≤ idle_limit
    → idle_limit ≤ since
    → tick ≤ since
    → take_token capacity per since now (sweep tick o) ≡ take_token capacity per since now o
unfolding take_token sweep
take_token-sweep capacity per tick since now none p c small late le = refl
take_token-sweep capacity per tick since now (some b) p c small late le =
    elim (Bool-cases (is_stale tick b)) [
      | inl stale ↦ rw stale (
          ap (spend now) (
            refill_new capacity per since now p c small late
            ∙ sym (
                refill_full capacity per since now b p c
                  (le_trans small (stale_idle tick since b stale le)))))
      | inr fresh ↦ rw fresh
    ]

refill_short :
    (capacity per since now : ℕ) (b : Bucket)
    → 0 < per
    → b.tokens * per + (since - b.last_seen) < capacity * per
    → (refill capacity per since now b).tokens < capacity
unfolding refill time_since
refill_short capacity per since now b p short =
    let r = time_since since b.last_seen / per in
    let bound : b.tokens + r < capacity = lt_of_mul-lt-mul_right per (
      omega (
        arith,
        div-mul-le_self (time_since since b.last_seen) per,
        time_since-le-sub since b.last_seen,
      )) in
    ground arith

-- Where it does not, the cleanup hands out tokens: if the bucket that it drops would not be full
-- again at the next request, then the new bucket in its place has more to give, counting
-- the answer to that request.
pub sweep_gives_tokens :
    (capacity per tick since now : ℕ) (b : Bucket)
    → 0 < per
    → 0 < capacity
    → is_stale tick b ≡ true
    → capacity * per ≤ since
    → capacity * per ≤ max_duration
    → b.tokens * per + (since - b.last_seen) < capacity * per
    → let kept = take_token capacity per since now (some b) in
      let dropped = take_token capacity per since now (sweep tick (some b)) in
      granted kept.1 + kept.0.tokens < granted dropped.1 + dropped.0.tokens
unfolding take_token sweep
sweep_gives_tokens capacity per tick since now b p c stale late r2 short =
    rw
      (
        stale,
        refill_full capacity per since now (record { tokens = capacity; last_seen = 0 }) p c
            (reach since (capacity * per) late r2),
      )
      (omega (
        arith,
        spend_total now (refill capacity per since now b),
        spend_total now (record { tokens = capacity; last_seen = now }),
        refill_short capacity per since now b p short,
      ))
