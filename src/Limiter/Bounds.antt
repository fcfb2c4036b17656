-- ===== src/Limiter/Bounds.antt =====
-- The bucket never holds more than the burst, and admits no more than the rate gives.
use native.Mathlib.Nat.{div-mul-le_self, div-le_self, mul-le-mul_right}
use websocket_challenge.Base.{
  ℕ, ◌+◌, ◌-◌, ◌*◌, ◌/◌, ◌≤◌, ◌<◌, ◌≡◌, ◌⊎◌, inl, inr, ap, ◌||◌, List, [], ◌∷◌, arith, Bool-cases,
  leb, ltb, if◌then◌else◌, All,
}
use websocket_challenge.Limiter.{RateLimiter, allow, count_allowed}

-- A bucket with at most `burst` tokens.
pub record IsBucket (l : RateLimiter) : Type 0 where
  pub small : l.burst < 1073741824
  pub capped : l.token ≤ l.burst
  pub ticking : 0 < l.rate

-- The clock has not gone back, and the tokens of the time gone by fit in 30 bits.
abbrev pub InRange : ℕ → RateLimiter → Type 0
InRange now l = (l.last_tick ≤ now) × ((now - l.last_tick) / l.rate < 1073741824)

-- A call in the range where no conversion wraps keeps a well-formed bucket within its burst.
pub allow-IsBucket :
    (now : ℕ) (l : RateLimiter) → InRange now l → IsBucket l → IsBucket (allow now l).0
unfolding allow
allow-IsBucket now l h v = ground arith

-- On a well-formed bucket with a positive burst, in the range where no conversion wraps, a call is
-- allowed exactly when a token is held or at least one unit has been generated: the seconds since
-- the last tick are at least `rate`.
pub allow_iff :
    (now : ℕ) (l : RateLimiter)
    → InRange now l
    → IsBucket l
    → 0 < l.burst
    → (allow now l).1 ≡ (ltb 0 l.token || leb 1 ((now - l.last_tick) / l.rate))
unfolding allow
allow_iff now l h v b = ground arith

-- The tokens that a call spends and leaves are among those held and those generated.
allow-conserves :
    (now : ℕ) (l : RateLimiter)
    → InRange now l
    → IsBucket l
    → let q = (now - l.last_tick) / l.rate in
      ((if (allow now l).1 then 1 else 0) + (allow now l).0.token ≤ l.token + q)
      × ((allow now l).0.rate ≡ l.rate)
      × (((q ≡ 0) × ((allow now l).0.last_tick ≡ l.last_tick)) ⊎ ((allow now l).0.last_tick ≡ now))
unfolding allow
allow-conserves now l h v = (ground arith, ground arith, ground arith)

-- What a call takes from the bucket and what time puts in, in units of a token's time.
allow-pays :
    (now : ℕ) (l : RateLimiter)
    → InRange now l
    → IsBucket l
    → ((if (allow now l).1 then 1 else 0) + (allow now l).0.token) * l.rate + l.last_tick
      ≤ l.token * l.rate + (allow now l).0.last_tick
allow-pays now l h v =
    let q = (now - l.last_tick) / l.rate in
    let (spent, _, ticked) = allow-conserves now l h v in
    let paid = mul-le-mul_right l.rate spent in
    elim ticked [
      | inl (none_made, same) ↦ omega (arith, paid, same, ap (λ (t : ℕ). t * l.rate) none_made)
      | inr moved ↦ omega (arith, paid, moved, div-mul-le_self (now - l.last_tick) l.rate, h.0)
    ]

-- A run of the clock that does not go back, from `t` on.
abbrev pub Ascending : ℕ → List ℕ → Type 0
Ascending t [] = Unit
Ascending t (now ∷ later) = (t ≤ now) × Ascending now later

abbrev pub last_of : ℕ → List ℕ → ℕ
last_of t [] = t
last_of t (now ∷ later) = last_of now later

-- The times stay within 2 ^ 30 seconds of the start.
abbrev pub Within : ℕ → ℕ → Type 0
Within start now = now < start + 1073741824

count_allowed-pays :
    (start t : ℕ) (times : List ℕ) (l : RateLimiter)
    → IsBucket l
    → start ≤ l.last_tick
    → l.last_tick ≤ t
    → Ascending t times
    → All (Within start) times
    → count_allowed times l * l.rate + l.last_tick ≤ l.token * l.rate + last_of t times
unfolding count_allowed
count_allowed-pays start t [] l v a b asc h = omega arith
count_allowed-pays start t (now ∷ later) l v a b asc h = together (
    count_allowed-pays start now later l' (allow-IsBucket now l range v) (omega (arith, ticked))
      ticked.1 asc.1 h.1)
  where
    range : InRange now l
    range = (omega arith, omega (arith, div-le_self (now - l.last_tick) l.rate))

    l' : RateLimiter
    l' = (allow now l).0

    same_rate : l'.rate ≡ l.rate
    same_rate = (allow-conserves now l range v).1

    rate_of : count_allowed later l' * l'.rate ≡ count_allowed later l' * l.rate
    rate_of = ap (λ (r : ℕ). count_allowed later l' * r) same_rate

    token_of : l'.token * l'.rate ≡ l'.token * l.rate
    token_of = ap (λ (r : ℕ). l'.token * r) same_rate

    pays :
        ((if (allow now l).1 then 1 else 0) + (allow now l).0.token) * l.rate + l.last_tick
        ≤ l.token * l.rate + (allow now l).0.last_tick
    pays = allow-pays now l range v

    ticked : (l.last_tick ≤ l'.last_tick) × (l'.last_tick ≤ now)
    ticked = ground (arith, (allow-conserves now l range v).2)

    together :
        count_allowed later l' * l'.rate + l'.last_tick ≤ l'.token * l'.rate + last_of now later
        → count_allowed (now ∷ later) l * l.rate + l.last_tick
          ≤ l.token * l.rate + last_of now later
    together ih = elim (Bool-cases (allow now l).1) [
      | inl allowed ↦
          rw (allowed, count_allowed) (omega (arith, ih, rate_of, token_of, (rw allowed at pays)))
      | inr refused ↦
          rw (refused, count_allowed) (omega (arith, ih, rate_of, token_of, (rw refused at pays)))
    ]

-- Over any run of calls at ascending times on a well-formed bucket, in the range where no
-- conversion wraps, the calls that are allowed, each paid with `rate` units of time, cost no more
-- than the tokens held at the start and the time that has gone by.
pub count_allowed-le :
    (times : List ℕ) (l : RateLimiter)
    → IsBucket l
    → Ascending l.last_tick times
    → All (Within l.last_tick) times
    → count_allowed times l * l.rate ≤ l.token * l.rate + (last_of l.last_tick times - l.last_tick)
count_allowed-le times l v asc h = omega (
  arith,
  count_allowed-pays l.last_tick l.last_tick times l v (omega arith) (omega arith) asc h,
  Ascending-le l.last_tick times asc,
)
  where
    Ascending-le : (t : ℕ) (ts : List ℕ) → Ascending t ts → t ≤ last_of t ts
    Ascending-le t [] a = omega arith
    Ascending-le t (now ∷ later) a = omega (arith, Ascending-le now later a.1)
