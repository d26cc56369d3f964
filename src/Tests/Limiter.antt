-- ===== src/Tests/Limiter.antt =====
-- The rate limiter.
use chat_back.Prelude.{ℕ, ◌+◌, ◌*◌, ◌≤◌, ◌<◌, ◌≡◌, refl, arith, List, [], ◌∷◌, some}
use chat_back.RateLimit.{
  TokenBucket, Bucket, IsCounted, new_token_bucket, take_token, sweep, is_stale, time_since,
  min_int,
}
use chat_back.Http.Server.{limits}
use chat_back.RateLimit.Refill.{granted}
use chat_back.RateLimit.Cleanup.{take_token-sweep, sweep_gives_tokens}
use chat_back.RateLimit.Trace.{Event, request, admitted, IsPrompt}
use chat_back.RateLimit.Window.{admitted_bound}

abbrev minute : ℕ
minute = 60000000000

abbrev limiter : TokenBucket
limiter = new_token_bucket 2 minute

-- The limiters of the server are within the range in which Go's integers keep count.
limits-IsCounted :
    IsCounted limits.global.capacity limits.global.refill_per
    × IsCounted limits.cred.capacity limits.cred.refill_per
    × IsCounted limits.refresh.capacity limits.refresh.refill_per
    × IsCounted limits.demo.capacity limits.demo.refill_per
unfolding new_token_bucket
limits-IsCounted = (
  (omega arith, omega arith, omega arith),
  (omega arith, omega arith, omega arith),
  (omega arith, omega arith, omega arith),
  (omega arith, omega arith, omega arith),
)

limiter-IsPrompt : IsPrompt limiter
unfolding new_token_bucket
limiter-IsPrompt = record { some_time = omega arith; some_room = omega arith; within = omega arith }

abbrev clicks : List Event
clicks =
    request (49 ∷ []) 700000000000 700000000000 ∷ request (49 ∷ []) 700000000001 700000000002 ∷ []

admitted_bound_example :
    admitted (49 ∷ []) clicks limiter * minute + 700000000000 ≤ 2 * minute + minute + 700000000002
unfolding new_token_bucket
admitted_bound_example =
    admitted_bound (49 ∷ []) clicks 700000000000 700000000002 limiter limiter-IsPrompt (omega arith)
      (omega arith, omega arith, (omega arith, omega arith, omega arith)) tt

take_token-sweep_example :
    take_token 2 minute 900000000000 900000000001
      (sweep 900000000000 (some (record { tokens = 1; last_seen = 5 })))
    ≡ take_token 2 minute 900000000000 900000000001 (some (record { tokens = 1; last_seen = 5 }))
take_token-sweep_example =
    take_token-sweep 2 minute 900000000000 900000000000 900000000001
      (some (record { tokens = 1; last_seen = 5 })) (omega arith) (omega arith) (omega arith)
      (omega arith) (omega arith)

-- The limit of the demo endpoint, twenty tokens at one a minute.
abbrev spent : Bucket
spent = record { tokens = 0; last_seen = 5000000000000 }

sweep_gives_tokens_example :
    let kept = take_token 20 minute 5700000000000 5700000000000 (some spent) in
    let dropped =
      take_token 20 minute 5700000000000 5700000000000 (sweep 5700000000000 (some spent)) in
    granted kept.1 + kept.0.tokens < granted dropped.1 + dropped.0.tokens
unfolding is_stale time_since min_int
sweep_gives_tokens_example =
    sweep_gives_tokens 20 minute 5700000000000 5700000000000 5700000000000 spent (omega arith)
      (omega arith) refl (omega arith) (omega arith) (omega arith)
