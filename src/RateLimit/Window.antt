-- ===== src/RateLimit/Window.antt =====
-- How many requests of one key get through in a stretch of time.
use chat_back.Prelude.{
  ℕ, ◌+◌, ◌-◌, ◌*◌, ◌≤◌, ◌<◌, ◌≡◌, false, Option, none, some, arith, refl, List, [], ◌∷◌,
  Bool-cases, inl, inr, ◌⊎◌,
}
use native.Mathlib.Nat.{le_trans, mul-le-mul_right}
use native.Mathlib.Decide.{dec_le}
use chat_back.Text.{Text, text_eq, text_eq_sound, text_eq_refl}
use chat_back.RateLimit.{Bucket, TokenBucket, take_token, idle_limit, refill}
use chat_back.RateLimit.Trace.{
  Event, request, tick, step, answer, admitted, begins, ends, InOrder, credit, paid_from, IsSeen,
  IsPrompt, step-IsSeen, admitted-pays, step-capacity, step-refill_per, step-IsPrompt, per_small,
  allow_answer, allow-buckets,
}
use chat_back.RateLimit.Refill.{granted, spend-last_seen, take_token_lem, refill_restarts}
use chat_back.RateLimit.Cleanup.{spend_total}

-- A request that finds a token's time gone by refills the bucket and restarts its clock.
take_token_restarts :
    (capacity per since now : ℕ) (b : Bucket)
    → 0 < per
    → per ≤ idle_limit
    → per ≤ since - b.last_seen
    → let (b', allowed) = take_token capacity per since now (some b) in
      0 < now → (granted allowed + b'.tokens ≤ capacity) × (b'.last_seen ≡ now)
take_token_restarts capacity per since now b p small gone pos =
    let r = refill_restarts capacity per since now b p small gone in
    rw take_token_lem (
      omega (
        arith,
        spend_total now (refill capacity per since now b),
        spend-last_seen now (refill capacity per since now b),
        r,
      ))

credit_scaled :
    (from capacity per : ℕ) (o : Option Bucket)
    → IsSeen capacity from o
    → credit capacity o * per ≤ capacity * per
credit_scaled from capacity per none seen = omega arith
credit_scaled from capacity per (some b) seen = mul-le-mul_right per seen.0

-- The first event after `from`: it lets no request of the key through, or less than a token's
-- time had gone by at `from`, or the key's clock restarts at the event.
first_event :
    (k : Text) (e : Event) (from : ℕ) (tb : TokenBucket)
    → IsPrompt tb
    → idle_limit ≤ from
    → from ≤ begins e
    → begins e ≤ ends e
    → (answer k e tb ≡ false)
      ⊎ (from ≤ paid_from from (tb.buckets k) + tb.refill_per)
      ⊎ ((granted (answer k e tb) + credit tb.capacity ((step e tb).buckets k) ≤ tb.capacity)
          × (paid_from (ends e) ((step e tb).buckets k) ≡ ends e))
unfolding answer step
first_event k (tick now) from tb p late h h' = inl refl
first_event k (request key since now) from tb p late h h' = elim (Bool-cases (text_eq k key)) [
  | inr other ↦ inl (rw other)
  | inl same ↦ inr (
      rw (allow_answer, allow-buckets, ← text_eq_sound k key same, text_eq_refl)
        (mine (tb.buckets k)))
]
  where
    mine :
        (o : Option Bucket)
        → (from ≤ paid_from from o + tb.refill_per)
          ⊎ ((granted (take_token tb.capacity tb.refill_per since now o).1
                  + (take_token tb.capacity tb.refill_per since now o).0.tokens
                ≤ tb.capacity)
              × ((take_token tb.capacity tb.refill_per since now o).0.last_seen ≡ now))
    mine none = inl (omega arith)
    mine (some b) = elim (dec_le tb.refill_per (since - b.last_seen)) [
      | yes gone ↦ inr (
          take_token_restarts tb.capacity tb.refill_per since now b p.some_time (per_small tb p)
            gone (omega arith))
      | no more ↦ inl (omega arith)
    ]

-- In any stretch of time from `from` to `to`, whatever the other addresses do and whenever the
-- cleanup runs, the requests of one key that get through number at most the capacity and one for
-- each `refill_per` of the stretch, and one more for the time begun before it.
pub admitted_bound :
    (k : Text) (es : List Event) (from to : ℕ) (tb : TokenBucket)
    → IsPrompt tb
    → idle_limit ≤ from
    → InOrder from es to
    → IsSeen tb.capacity from (tb.buckets k)
    → admitted k es tb * tb.refill_per + from ≤ tb.capacity * tb.refill_per + tb.refill_per + to
unfolding admitted
admitted_bound k [] from to tb p late ordered seen = omega arith
admitted_bound k (e ∷ es) from to tb p late ordered seen =
    let whole = admitted-pays k (e ∷ es) from to tb p late ordered seen in
    let seen' = step-IsSeen k e from tb p late ordered.0 ordered.1 seen in
    let late' = le_trans late (le_trans ordered.0 ordered.1) in
    let after =
      rw (step-capacity e tb, step-refill_per e tb) at
        (admitted_bound k es (ends e) to (step e tb) (step-IsPrompt e tb p) late' ordered.2
          seen') in
    let rest =
      rw (step-capacity e tb, step-refill_per e tb) at
        (admitted-pays k es (ends e) to (step e tb) (step-IsPrompt e tb p) late' ordered.2 seen') in
    elim (first_event k e from tb p late ordered.0 ordered.1) [
      | inl idle ↦ rw idle (omega arith)
      | inr (inl recent) ↦
          omega (arith, credit_scaled from tb.capacity tb.refill_per (tb.buckets k) seen)
      | inr (inr (left, now)) ↦ omega (arith, mul-le-mul_right tb.refill_per left)
    ]
