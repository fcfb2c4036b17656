-- ===== src/Limiter/Callers/Capped.antt =====
-- The burst is kept by any number of callers, however their operations are interleaved.
use native.Mathlib.Nat.{div-lt_iff_lt-mul, div-zero}
use websocket_challenge.Base.{
  ℕ, ◌-◌, ◌/◌, ◌≤◌, ◌<◌, ◌≡◌, refl, ap, ◌∙◌, true, List, [], ◌∷◌, ◌==◌, Bool-cases, inl, inr, arith,
  ltb,
}
use websocket_challenge.Limiter.{RateLimiter, generated, positive}
use websocket_challenge.Limiter.Callers.{
  Phase, entering, loaded, swapped, topping, taking, holding, done, advance, System, turn, run,
}

-- No token count of a caller wraps: clocks, in units of `rate`, and what was made of them, have at
-- most 30 bits, and no caller holds more than the burst.
abbrev pub InRange : ℕ → ℕ → Phase → Type 0
InRange rate burst (entering now) = now / rate < 1073741824
InRange rate burst (loaded now last) = (now / rate < 1073741824) × (last / rate < 1073741824)
InRange rate burst (swapped made) = made < 1073741824
InRange rate burst (topping made current) = (made < 1073741824) × (current ≤ burst)
InRange rate burst taking = Unit
InRange rate burst (holding current) = current ≤ burst
InRange rate burst (done allowed) = Unit

pub record IsCapped (s : System) : Type 0 where
  pub small : s.bucket.burst < 1073741824
  pub capped : s.bucket.token ≤ s.bucket.burst
  pub ticked : s.bucket.last_tick / s.bucket.rate < 1073741824
  pub callers : (i : ℕ) → InRange s.bucket.rate s.bucket.burst (s.phase i)

-- What a caller in a phase does to the bucket and to itself.
record Advanced (l : RateLimiter) (q : RateLimiter × Phase) : Type 0 where
  same_rate : q.0.rate ≡ l.rate
  same_burst : q.0.burst ≡ l.burst
  capped : q.0.token ≤ l.burst
  ticked : q.0.last_tick / l.rate < 1073741824
  ranged : InRange l.rate l.burst q.1

div-smaller : (a b k y : ℕ) → a ≤ b → b / k < y → a / k < y
div-smaller a b k y le small = elim (Bool-cases (ltb 0 k)) [
  | inl able ↦
      let positive_k : 0 < k = ground (arith, able) in
      (div-lt_iff_lt-mul positive_k).1 (omega (arith, le, (div-lt_iff_lt-mul positive_k).0 small))
  | inr unable ↦
      let nought : k ≡ 0 = ground (arith, unable) in
      let here : a / k ≡ 0 = ap (λ (j : ℕ). a / j) nought ∙ div-zero a in omega (arith, here, small)
]

generated-small :
    (now last : ℕ) (l : RateLimiter)
    → now / l.rate < 1073741824
    → last / l.rate < 1073741824
    → positive (generated now (record l { last_tick = last })) ≡ true
    → generated now (record l { last_tick = last }) < 1073741824
unfolding generated
generated-small now last l a b due =
    let ahead = div-smaller (now - last) now l.rate 1073741824 (omega arith) a in
    let behind = div-smaller (last - now) last l.rate 1073741824 (omega arith) b in
    ground (arith, ahead, behind, due)

advance-Advanced :
    (p : Phase) (l : RateLimiter)
    → l.burst < 1073741824
    → l.token ≤ l.burst
    → l.last_tick / l.rate < 1073741824
    → InRange l.rate l.burst p
    → Advanced l (advance p l)
unfolding advance
advance-Advanced (entering now) l small capped ticked r = record {
  same_rate = refl;
  same_burst = refl;
  capped = capped;
  ticked = ticked;
  ranged = (r, ticked);
}
advance-Advanced (loaded now last) l small capped ticked r =
    elim (Bool-cases (positive (generated now (record l { last_tick = last })))) [
      | inr none_due ↦ rw none_due (record {
        same_rate = refl;
        same_burst = refl;
        capped = capped;
        ticked = ticked;
        ranged = tt;
      })
      | inl due ↦ elim (Bool-cases (l.last_tick == last)) [
        | inl won ↦
            rw (due, won)
              (record {
                same_rate = refl;
                same_burst = refl;
                capped = capped;
                ticked = r.0;
                ranged = generated-small now last l r.0 r.1 due;
              })
        | inr lost ↦
            rw (due, lost)
              (record {
                same_rate = refl;
                same_burst = refl;
                capped = capped;
                ticked = ticked;
                ranged = tt;
              })
      ]
    ]
advance-Advanced (swapped made) l small capped ticked r = record {
  same_rate = refl;
  same_burst = refl;
  capped = capped;
  ticked = ticked;
  ranged = (r, capped);
}
advance-Advanced (topping made current) l small capped ticked r = record {
  same_rate = refl;
  same_burst = refl;
  capped = ground arith;
  ticked = ticked;
  ranged = tt;
}
advance-Advanced taking l small capped ticked r = elim (Bool-cases (positive l.token)) [
  | inl held ↦ rw held (record {
    same_rate = refl;
    same_burst = refl;
    capped = capped;
    ticked = ticked;
    ranged = capped;
  })
  | inr empty ↦ rw empty (record {
    same_rate = refl;
    same_burst = refl;
    capped = capped;
    ticked = ticked;
    ranged = tt;
  })
]
advance-Advanced (holding current) l small capped ticked r =
    elim (Bool-cases (l.token == current)) [
      | inl won ↦ rw won (record {
        same_rate = refl;
        same_burst = refl;
        capped = omega (arith, r);
        ticked = ticked;
        ranged = tt;
      })
      | inr lost ↦ rw lost (record {
        same_rate = refl;
        same_burst = refl;
        capped = capped;
        ticked = ticked;
        ranged = tt;
      })
    ]
advance-Advanced (done allowed) l small capped ticked r = record {
  same_rate = refl;
  same_burst = refl;
  capped = capped;
  ticked = ticked;
  ranged = tt;
}

turn-IsCapped : (i : ℕ) (s : System) → IsCapped s → IsCapped (turn i s)
unfolding turn
turn-IsCapped i s v =
    let a = advance-Advanced (s.phase i) s.bucket v.small v.capped v.ticked (v.callers i) in
    record {
      small = rw a.same_burst v.small;
      capped = rw a.same_burst a.capped;
      ticked = rw a.same_rate a.ticked;
      callers = λ j.
          rw (a.same_rate, a.same_burst)
            (elim (Bool-cases (j == i)) [
              | inl own ↦ rw own a.ranged
              | inr differ ↦ rw differ (v.callers j)
            ]);
    }

-- From any state in which no count wraps and the bucket and its callers are within the burst, every
-- schedule leads to such a state.
pub run-IsCapped : (is : List ℕ) (s : System) → IsCapped s → IsCapped (run is s)
unfolding run
run-IsCapped [] s v = v
run-IsCapped (i ∷ is) s v = run-IsCapped is (turn i s) (turn-IsCapped i s v)
