-- ===== src/Limiter/Callers.antt =====
-- `Allow` of internal/middleware/rateLimiter.go as several goroutines run it: one atomic operation
-- of one caller at a time.
pub mod Alone
pub mod Capped
pub mod Spending
use websocket_challenge.Base.{ℕ, ◌-◌, ◌+◌, Bool, true, false, List, [], ◌∷◌, ◌==◌, if◌then◌else◌}
use websocket_challenge.Limiter.{RateLimiter, int32, positive, less, generated}

-- Where a caller stands, with its local variables: `now`, `last`, `generated` and `current`.
pub data Phase : Type 0 where
  entering : ℕ → Phase
  loaded : ℕ → ℕ → Phase
  swapped : ℕ → Phase
  topping : ℕ → ℕ → Phase
  taking : Phase
  holding : ℕ → Phase
  done : Bool → Phase

-- The next operation of a caller.
unfoldable pub advance : Phase → RateLimiter → RateLimiter × Phase
unfolding generated
advance (entering now) l = (l, loaded now l.last_tick)
advance (loaded now last) l =
    let made = generated now (record l { last_tick = last }) in
    if positive made
    then if l.last_tick == last then (record l { last_tick = now }, swapped made) else (l, taking)
    else (l, taking)
advance (swapped made) l = (l, topping made l.token)
advance (topping made current) l =
    let new_balance = int32 (current + made) in
    (record l { token = if less l.burst new_balance then l.burst else new_balance }, taking)
advance taking l = if positive l.token then (l, holding l.token) else (l, done false)
advance (holding current) l =
    (if l.token == current then record l { token = current - 1 } else l, done true)
advance (done allowed) l = (l, done allowed)

pub record System : Type 0 where
  pub bucket : RateLimiter
  pub phase : ℕ → Phase

-- The turn of the caller `i`.
unfoldable pub turn : ℕ → System → System
unfolding advance
turn i s =
    let (l, p) = advance (s.phase i) s.bucket in
    record { bucket = l; phase = λ j. if j == i then p else s.phase j }

-- A schedule: whose turn it is.
unfoldable pub run : List ℕ → System → System
unfolding turn
run [] s = s
run (i ∷ is) s = run is (turn i s)
