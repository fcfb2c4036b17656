-- ===== src/Legacy/Chat/Bucket.antt =====
-- The token bucket of legacy/challenge-7/chat.go, which reads its clock in nanoseconds, as one
-- goroutine calls it.
use websocket_challenge.Base.{
  ℕ, ◌+◌, ◌-◌, ◌*◌, ◌/◌, ◌≤◌, ◌<◌, ◌≡◌, refl, ap, zero, suc, Bool, true, false, leb, ltb,
  if◌then◌else◌, arith, ◌∙◌, Bool-cases, inl, inr,
}
use websocket_challenge.Limiter.{int32, positive, less}
use native.Mathlib.Nat.{zero-div, le-div_iff_mul-le}

-- `lastTick` is a Unix time in nanoseconds; `tokens` and `burst` are `int32` patterns.
pub record RateLimiter : Type 0 where
  pub tokens : ℕ
  pub last_tick : ℕ
  pub burst : ℕ
  pub rate : ℕ

unfoldable pub new_rate_limiter : ℕ → ℕ → ℕ → RateLimiter
new_rate_limiter now burst rate = record {
  tokens = burst;
  last_tick = now;
  burst = burst;
  rate = rate;
}

-- `int32(elapsed / int64(l.rate))`, where the division truncates toward zero.
unfoldable pub generated : ℕ → RateLimiter → ℕ
generated now l =
    if leb l.last_tick now
    then int32 ((now - l.last_tick) / l.rate)
    else int32 (4294967296 - int32 ((l.last_tick - now) / l.rate))

-- The tokens of the time gone by, up to `burst`; `newBalance >= l.burst` is not `<`.
unfoldable pub refill : ℕ → RateLimiter → RateLimiter
unfolding generated
refill now l =
    let balance = int32 (l.tokens + generated now l) in
    if positive (generated now l)
    then record l { last_tick = now; tokens = if less balance l.burst then balance else l.burst }
    else l

-- The loop takes a token in its first round, or finds none.
unfoldable pub take_token : RateLimiter → RateLimiter × Bool
take_token l = if positive l.tokens then (record l { tokens = l.tokens - 1 }, true) else (l, false)

unfoldable pub allow : ℕ → RateLimiter → RateLimiter × Bool
unfolding refill take_token
allow now l = take_token (refill now l)

-- How many of `n` calls at the same instant are allowed.
unfoldable pub count_at : ℕ → ℕ → RateLimiter → ℕ
count_at now zero l = 0
count_at now (suc n) l =
    let (l', allowed) = allow now l in
    let rest = count_at now n l' in if allowed then suc rest else rest

allow-ticked :
    (now : ℕ) (l : RateLimiter)
    → l.last_tick ≡ now
    → l.tokens < 1073741824
    → allow now l ≡ take_token l
unfolding allow
allow-ticked now l e small =
    let none_due : (now - l.last_tick) / l.rate ≡ 0 =
      rw e (ap (λ (d : ℕ). d / l.rate) (omega arith) ∙ zero-div l.rate) in
    ground (arith, none_due)

count_at-ticked :
    (now n : ℕ) (l : RateLimiter)
    → l.last_tick ≡ now
    → l.tokens < 1073741824
    → count_at now n l ≡ (if leb n l.tokens then n else l.tokens)
unfolding count_at take_token
count_at-ticked now zero l e small = ground arith
count_at-ticked now (suc n) l e small = elim (Bool-cases (ltb 0 l.tokens)) [
  | inl held ↦
      let taken : take_token l ≡ (record l { tokens = l.tokens - 1 }, true) =
        ground (arith, held, small) in
      rw (allow-ticked now l e small, taken)
        (ground (
          arith,
          held,
          small,
          count_at-ticked now n (record l { tokens = l.tokens - 1 }) e (omega (arith, small)),
        ))
  | inr empty ↦
      let refused : take_token l ≡ (l, false) = ground (arith, empty) in
      rw (allow-ticked now l e small, refused)
        (ground (arith, empty, small, count_at-ticked now n l e small))
]

allow-paused :
    (now : ℕ) (l : RateLimiter)
    → 0 < l.burst
    → l.tokens ≤ l.burst
    → l.burst < 1073741824
    → l.last_tick ≤ now
    → l.burst ≤ (now - l.last_tick) / l.rate
    → (now - l.last_tick) / l.rate < 1073741824
    → allow now l ≡ (record l { tokens = l.burst - 1; last_tick = now }, true)
unfolding allow
allow-paused now l positive_burst capped small forward due range = ground arith

-- On a bucket that holds at most its burst, once the time of a whole burst has gone by, in the
-- range where no conversion wraps, `n` calls at one instant are allowed as long as they are no more
-- than the burst, and of more calls exactly as many as the burst are.
pub count_at-paused :
    (now n : ℕ) (l : RateLimiter)
    → 0 < l.rate
    → 0 < l.burst
    → l.tokens ≤ l.burst
    → l.burst < 1073741824
    → l.last_tick + l.burst * l.rate ≤ now
    → (now - l.last_tick) / l.rate < 1073741824
    → count_at now n l ≡ (if leb n l.burst then n else l.burst)
unfolding count_at
count_at-paused now zero l ticking able capped small paused range = ground arith
count_at-paused now (suc n) l ticking able capped small paused range =
    let due : l.burst ≤ (now - l.last_tick) / l.rate =
      (le-div_iff_mul-le ticking).1 (omega (arith, paused)) in
    rw (allow-paused now l able capped small (omega (arith, paused)) due range) (
      ground (
        arith,
        able,
        small,
        count_at-ticked now n (record l { tokens = l.burst - 1; last_tick = now }) refl
            (omega (arith, able, small)),
      ))
