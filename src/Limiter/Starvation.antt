-- ===== src/Limiter/Starvation.antt =====
-- The rate is given in nanoseconds and the clock is read in seconds.
use websocket_challenge.Base.{ℕ, ◌+◌, ◌≤◌, ◌<◌, ◌≡◌, List, [], ◌∷◌, arith, All}
use websocket_challenge.Limiter.{RateLimiter, refill_rate, refill, take_token, allow, count_allowed}

-- Within 500,000,000 seconds (some 15 years) of the last tick no token is generated.
refill-idle :
    (now : ℕ) (l : RateLimiter)
    → l.rate ≡ refill_rate
    → l.last_tick ≤ now
    → now < l.last_tick + 500000000
    → refill now l ≡ l
unfolding refill
refill-idle now l e a b = ground arith

abbrev pub WithinFifteenYears : ℕ → ℕ → Type 0
WithinFifteenYears start now = (start ≤ now) × (now < start + 500000000)

-- With the rate that the server passes, 500 milliseconds, a bucket allows over all calls within
-- 500,000,000 seconds of its last tick no more of them than it held tokens at the start.
pub count_allowed-le-token :
    (start : ℕ) (times : List ℕ) (l : RateLimiter)
    → l.rate ≡ refill_rate
    → l.last_tick ≡ start
    → l.token < 2147483648
    → All (WithinFifteenYears start) times
    → count_allowed times l ≤ l.token
unfolding count_allowed allow take_token
count_allowed-le-token start [] l e s t h = omega arith
count_allowed-le-token start (now ∷ later) l e s t h = ground (
  arith,
  refill-idle now l e (omega arith) (omega arith),
  count_allowed-le-token start later (allow now l).0,
)
