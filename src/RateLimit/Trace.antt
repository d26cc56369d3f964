-- ===== src/RateLimit/Trace.antt =====
-- A limiter over time: the requests of all addresses and the ticks of the cleanup, in the order in
-- which they take the mutex. What the answers to one key cost in tokens and in time.
use chat_back.Prelude.{
  ℕ, ◌+◌, ◌*◌, ◌≤◌, ◌<◌, ◌≡◌, Bool, false, Option, none, some, arith, refl, if◌then◌else◌, List, [],
  ◌∷◌, Bool-cases, inl, inr,
}
use native.Mathlib.Nat.{le_trans, mul-le-mul_right}
use chat_back.Text.{Text, text_eq, text_eq_sound, text_eq_refl}
use chat_back.RateLimit.{
  Bucket, TokenBucket, allow, cleanup, sweep, take_token, idle_limit, is_stale,
}
use chat_back.RateLimit.Refill.{
  granted, take_token_pays, take_token-IsFilled, spend_costs, spend-last_seen,
}
use chat_back.RateLimit.Cleanup.{stale_idle, take_token_new, spend_total, time_since-le-sub}

pub data Event : Type 0 where
  request : Text → ℕ → ℕ → Event
  tick : ℕ → Event

unfoldable pub step : Event → TokenBucket → TokenBucket
step (request key since now) tb = (allow key since now tb).0
step (tick now) tb = cleanup now tb

-- The answer to an event, for one key.
unfoldable pub answer : Text → Event → TokenBucket → Bool
answer k (request key since now) tb = if text_eq k key then (allow key since now tb).1 else false
answer k (tick now) tb = false

-- The requests of the key `k` that are let through.
unfoldable pub admitted : Text → List Event → TokenBucket → ℕ
unfolding step answer
admitted k [] tb = 0
admitted k (e ∷ es) tb = granted (answer k e tb) + admitted k es (step e tb)

-- The clock does not go back: each event begins when the one before it is over.
abbrev pub ends : Event → ℕ
ends (request _ _ now) = now
ends (tick now) = now

abbrev pub begins : Event → ℕ
begins (request _ since _) = since
begins (tick now) = now

abbrev pub InOrder : ℕ → List Event → ℕ → Type 0
InOrder from [] to = from ≤ to
InOrder from (e ∷ es) to = (from ≤ begins e) × (begins e ≤ ends e) × InOrder (ends e) es to

-- What a key has in hand: its tokens, or a full bucket if it has none.
abbrev pub credit : ℕ → Option Bucket → ℕ
credit capacity none = capacity
credit capacity (some b) = b.tokens

abbrev pub paid_from : ℕ → Option Bucket → ℕ
paid_from now none = now
paid_from now (some b) = b.last_seen

abbrev pub IsSeen : ℕ → ℕ → Option Bucket → Type 0
IsSeen capacity now none = Unit {0}
IsSeen capacity now (some b) = (b.tokens ≤ capacity) × (0 < b.last_seen) × (b.last_seen ≤ now)

-- One event as the key `k` sees it.
Pays : ℕ → ℕ → ℕ → Option Bucket → Bool → ℕ → Option Bucket → Type 0
Pays capacity per now o allowed now' o' =
    (granted allowed * per + credit capacity o' * per + paid_from now o
      ≤ credit capacity o * per + paid_from now' o')
    × IsSeen capacity now' o'

Pays-cost :
    (capacity per now now' : ℕ) (o o' : Option Bucket) (allowed : Bool)
    → Pays capacity per now o allowed now' o'
    → granted allowed * per + credit capacity o' * per + paid_from now o
      ≤ credit capacity o * per + paid_from now' o'
unfolding Pays
Pays-cost _ _ _ _ _ _ _ h = h.0

Pays-IsSeen :
    (capacity per now now' : ℕ) (o o' : Option Bucket) (allowed : Bool)
    → Pays capacity per now o allowed now' o'
    → IsSeen capacity now' o'
unfolding Pays
Pays-IsSeen _ _ _ _ _ _ _ h = h.1

pays_add :
    (g a per c c' f f' to : ℕ)
    → g * per + c' * per + f ≤ c * per + f'
    → a * per + f' ≤ c' * per + to
    → (g + a) * per + f ≤ c * per + to
pays_add _ _ _ _ _ _ _ _ h k = omega arith

module _ (capacity per : ℕ) (positive : 0 < per) (some_room : 0 < capacity)
    (small : capacity * per ≤ idle_limit) where
  take_token-Pays :
      (from since now : ℕ) (o : Option Bucket)
      → idle_limit ≤ from
      → from ≤ since
      → since ≤ now
      → IsSeen capacity from o
      → let (b, allowed) = take_token capacity per since now o in
        Pays capacity per from o allowed now (some b)
  unfolding Pays
  take_token-Pays from since now none late h k seen =
      let full : Bucket = record { tokens = capacity; last_seen = now } in
      rw (take_token_new capacity per since now positive some_room small (le_trans late h))
        (omega (arith, spend_costs now per full, spend-last_seen now full, spend_total now full))
  take_token-Pays from since now (some b) late h k seen =
      let p = take_token_pays capacity per since now b k (omega arith) seen.1 in
      omega (arith, take_token-IsFilled capacity per since now b seen.0, p)

  sweep-Pays :
      (from now : ℕ) (o : Option Bucket)
      → from ≤ now
      → IsSeen capacity from o
      → Pays capacity per from o false now (sweep now o)
  unfolding Pays sweep
  sweep-Pays from now none h seen = omega arith
  sweep-Pays from now (some b) h seen = elim (Bool-cases (is_stale now b)) [
    | inl stale ↦
        rw stale (omega (arith, stale_idle now now b stale, time_since-le-sub now b.last_seen))
    | inr fresh ↦ rw fresh (omega arith)
  ]

  untouched-Pays :
      (from to : ℕ) (o : Option Bucket)
      → from ≤ to
      → IsSeen capacity from o
      → Pays capacity per from o false to o
  unfolding Pays
  untouched-Pays from to none h seen = omega arith
  untouched-Pays from to (some b) h seen = omega arith

  seen-paid : (from : ℕ) (o : Option Bucket) → IsSeen capacity from o → paid_from from o ≤ from
  seen-paid from none seen = omega arith
  seen-paid from (some b) seen = seen.2

-- The limiter's numbers: it refills within the idle limit of the cleanup.
pub record IsPrompt (tb : TokenBucket) : Type 0 where
  pub some_time : 0 < tb.refill_per
  pub some_room : 0 < tb.capacity
  pub within : tb.capacity * tb.refill_per ≤ idle_limit

pub allow_answer :
    (key : Text) (since now : ℕ) (tb : TokenBucket)
    → (allow key since now tb).1
      ≡ (take_token tb.capacity tb.refill_per since now (tb.buckets key)).1
unfolding allow
allow_answer key since now tb = refl

pub allow-buckets :
    (k key : Text) (since now : ℕ) (tb : TokenBucket)
    → (allow key since now tb).0.buckets k ≡ (
        if text_eq k key
        then some (take_token tb.capacity tb.refill_per since now (tb.buckets key)).0
        else tb.buckets k)
unfolding allow
allow-buckets k key since now tb = refl

step-Pays :
    (k : Text) (e : Event) (from : ℕ) (tb : TokenBucket)
    → IsPrompt tb
    → idle_limit ≤ from
    → from ≤ begins e
    → begins e ≤ ends e
    → IsSeen tb.capacity from (tb.buckets k)
    → Pays tb.capacity tb.refill_per from
        (tb.buckets k)
        (answer k e tb)
        (ends e)
        ((step e tb).buckets k)
unfolding step answer cleanup
step-Pays k (tick now) from tb p late h h' seen =
    sweep-Pays tb.capacity tb.refill_per p.some_time p.some_room p.within from now (tb.buckets k) h
      seen
step-Pays k (request key since now) from tb p late h h' seen = elim (Bool-cases (text_eq k key)) [
  | inl same ↦
      rw (allow_answer, allow-buckets, ← text_eq_sound k key same, text_eq_refl)
        (take_token-Pays tb.capacity tb.refill_per p.some_time p.some_room p.within from since now
          (tb.buckets k) late h h' seen)
  | inr other ↦
      rw (allow-buckets, other)
        (untouched-Pays tb.capacity tb.refill_per p.some_time p.some_room p.within from now
          (tb.buckets k) (le_trans h h') seen)
]

pub step-capacity : (e : Event) (tb : TokenBucket) → (step e tb).capacity ≡ tb.capacity
unfolding step allow cleanup
step-capacity (request key since now) tb = refl
step-capacity (tick now) tb = refl

pub step-refill_per : (e : Event) (tb : TokenBucket) → (step e tb).refill_per ≡ tb.refill_per
unfolding step allow cleanup
step-refill_per (request key since now) tb = refl
step-refill_per (tick now) tb = refl

pub per_small : (tb : TokenBucket) → IsPrompt tb → tb.refill_per ≤ idle_limit
per_small tb p = le_trans (omega (arith, mul-le-mul_right tb.refill_per p.some_room)) p.within

pub step-IsPrompt : (e : Event) (tb : TokenBucket) → IsPrompt tb → IsPrompt (step e tb)
unfolding step allow cleanup
step-IsPrompt (request _ _ _) tb p = record {
  some_time = p.some_time;
  some_room = p.some_room;
  within = p.within;
}
step-IsPrompt (tick _) tb p = record {
  some_time = p.some_time;
  some_room = p.some_room;
  within = p.within;
}

pub step-IsSeen :
    (k : Text) (e : Event) (from : ℕ) (tb : TokenBucket)
    → IsPrompt tb
    → idle_limit ≤ from
    → from ≤ begins e
    → begins e ≤ ends e
    → IsSeen tb.capacity from (tb.buckets k)
    → IsSeen (step e tb).capacity (ends e) ((step e tb).buckets k)
step-IsSeen k e from tb p late h h' seen =
    rw step-capacity (Pays-IsSeen _ _ _ _ _ _ _ (step-Pays k e from tb p late h h' seen))

-- What the answers to a key cost, from any state of its bucket.
pub admitted-pays :
    (k : Text) (es : List Event) (from to : ℕ) (tb : TokenBucket)
    → IsPrompt tb
    → idle_limit ≤ from
    → InOrder from es to
    → IsSeen tb.capacity from (tb.buckets k)
    → admitted k es tb * tb.refill_per + paid_from from (tb.buckets k)
      ≤ credit tb.capacity (tb.buckets k) * tb.refill_per + to
unfolding admitted
admitted-pays k [] from to tb p late ordered seen = omega (
  arith,
  seen-paid tb.capacity tb.refill_per p.some_time p.some_room p.within from (tb.buckets k) seen,
)
admitted-pays k (e ∷ es) from to tb p late ordered seen =
    let now = step-Pays k e from tb p late ordered.0 ordered.1 seen in
    let rest =
      rw (step-capacity e tb, step-refill_per e tb) at
        (admitted-pays k es (ends e) to (step e tb) (step-IsPrompt e tb p)
          (le_trans late (le_trans ordered.0 ordered.1)) ordered.2
          (step-IsSeen k e from tb p late ordered.0 ordered.1 seen)) in
    pays_add (granted (answer k e tb)) _ _ _ _ _ _ _ (Pays-cost _ _ _ _ _ _ _ now) rest
