-- ===== src/Limiter.antt =====
-- The token bucket of internal/middleware/rateLimiter.go, as one goroutine calls it: `ReadPump` is
-- the only caller, so each compare-and-swap finds the value that was loaded. The clock's reading,
-- in seconds, is an argument.
pub mod Bounds
pub mod Starvation
pub mod Callers
use websocket_challenge.Base.{
  ℕ, ◌+◌, ◌-◌, ◌/◌, ◌%◌, Bool, true, false, ◌&&◌, List, [], ◌∷◌, leb, ltb, if◌then◌else◌,
}

-- An `int32` is its bit pattern, a number below 2 ^ 32.
abbrev pub int32 : ℕ → ℕ
int32 n = n % 4294967296

-- `x > 0`
abbrev pub positive : ℕ → Bool
positive x = ltb 0 x && ltb x 2147483648

-- `x < y` on signed patterns: the sign bit turned round, the order is that of the patterns.
abbrev pub less : ℕ → ℕ → Bool
less x y = ltb (int32 (x + 2147483648)) (int32 (y + 2147483648))

-- `rate` is a `time.Duration`, in nanoseconds; `last_tick` is an `int64`, in seconds.
pub record RateLimiter : Type 0 where
  pub token : ℕ
  pub rate : ℕ
  pub burst : ℕ
  pub last_tick : ℕ

-- `burstLimit`
abbrev pub burst_limit : ℕ
burst_limit = 5

-- `refillRate`, which is also what the server passes: 500 milliseconds.
abbrev pub refill_rate : ℕ
refill_rate = 500000000

unfoldable pub new_rate_limiter : ℕ → ℕ → ℕ → RateLimiter
new_rate_limiter now token rate = record {
  token = token;
  rate = rate;
  burst = burst_limit;
  last_tick = now;
}

-- `int32(elapsed / int64(l.rate))`: the division truncates toward zero, also of a negative span.
unfoldable pub generated : ℕ → RateLimiter → ℕ
generated now l =
    if leb l.last_tick now
    then int32 ((now - l.last_tick) / l.rate)
    else int32 (4294967296 - int32 ((l.last_tick - now) / l.rate))

-- The first part of `Allow`, which puts the tokens of the time that has gone by into the bucket.
unfoldable pub refill : ℕ → RateLimiter → RateLimiter
unfolding generated
refill now l =
    let new_balance = int32 (l.token + generated now l) in
    if positive (generated now l)
    then record l {
      last_tick = now;
      token = if less l.burst new_balance then l.burst else new_balance;
    }
    else l

-- The loop of `Allow` leaves in its first round: with no token left, or with one taken.
unfoldable pub take_token : RateLimiter → RateLimiter × Bool
take_token l = if positive l.token then (record l { token = l.token - 1 }, true) else (l, false)

unfoldable pub allow : ℕ → RateLimiter → RateLimiter × Bool
unfolding refill take_token
allow now l = take_token (refill now l)

-- How many of the calls at these times are allowed.
unfoldable pub count_allowed : List ℕ → RateLimiter → ℕ
count_allowed [] l = 0
count_allowed (now ∷ later) l =
    let (l', ok) = allow now l in let rest = count_allowed later l' in if ok then rest + 1 else rest
