-- ===== src/Tests/Buckets.antt =====
-- The rate limiter at the times of a short session.
use websocket_challenge.Base.{
  contains, true, ◌++◌, ℕ, ◌+◌, ◌-◌, ◌*◌, ◌≤◌, ◌≡◌, refl, List, [], ◌∷◌, arith,
}
use websocket_challenge.Limiter.{RateLimiter, new_rate_limiter, refill_rate, allow, count_allowed}
use websocket_challenge.Limiter.Bounds.{count_allowed-le, last_of}
use websocket_challenge.Limiter.Callers.{System, entering, taking, done, run}
use websocket_challenge.Limiter.Callers.Capped.{IsCapped, run-IsCapped}
use websocket_challenge.Limiter.Callers.Spending.{run-overspends}
use websocket_challenge.Limiter.Starvation.{count_allowed-le-token}

-- A bucket for five tokens of two seconds each, with one token left.
abbrev slow : RateLimiter
slow = record { token = 1; rate = 2; burst = 5; last_tick = 100 }

-- The bucket that the server makes for a client.
abbrev served : RateLimiter
unfolding new_rate_limiter
served = new_rate_limiter 100 5 refill_rate

abbrev times : List ℕ
times = 101 ∷ 101 ∷ 105 ∷ 200 ∷ []

slow_run : count_allowed times slow ≡ 3
unfolding count_allowed allow
slow_run = refl

served_run : count_allowed (100 ∷ 110 ∷ 120 ∷ 130 ∷ 140 ∷ 150 ∷ 86400 ∷ []) served ≡ 5
unfolding count_allowed allow served
served_run = refl

count_allowed-le_example : count_allowed times slow * 2 ≤ 1 * 2 + (last_of 100 times - 100)
count_allowed-le_example = count_allowed-le times slow (omega arith) (omega arith) (omega arith)

count_allowed-le-token_example : count_allowed times served ≤ 5
unfolding served new_rate_limiter
count_allowed-le-token_example =
    count_allowed-le-token 100 times served refl refl (omega arith) (omega arith)

-- Three callers that enter at one time, and three that have come to the loop.
abbrev crowd : System
unfolding served
crowd = record { bucket = served; phase = λ i. entering 150 }

abbrev rush : System
unfolding served
rush = record { bucket = record served { token = 1 }; phase = λ i. taking }

run-IsCapped_example : IsCapped (run (0 ∷ 1 ∷ 2 ∷ 1 ∷ 0 ∷ 2 ∷ 0 ∷ 0 ∷ []) crowd)
unfolding crowd served new_rate_limiter
run-IsCapped_example = run-IsCapped (0 ∷ 1 ∷ 2 ∷ 1 ∷ 0 ∷ 2 ∷ 0 ∷ 0 ∷ []) crowd (record {
  small = omega arith;
  capped = omega arith;
  ticked = omega arith;
  callers = λ i. omega arith;
})

run-overspends_example :
    let t = run ((0 ∷ 1 ∷ 2 ∷ []) ++ 0 ∷ 1 ∷ 2 ∷ []) rush in
    ((j : ℕ) → contains (0 ∷ 1 ∷ 2 ∷ []) j ≡ true → t.phase j ≡ done true) × (t.bucket.token ≡ 0)
unfolding rush served new_rate_limiter
run-overspends_example =
    run-overspends 0 (1 ∷ 2 ∷ []) rush (refl, (refl, (refl, tt))) (refl, (refl, (refl, tt))) refl
