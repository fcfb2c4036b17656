-- ===== src/Limiter/Callers/Alone.antt =====
-- A caller that is not disturbed does what `allow` says.
use websocket_challenge.Base.{
  ℕ, zero, suc, ◌-◌, ◌+◌, ◌≡◌, refl, ap, ◌∙◌, Bool, true, false, ◌==◌, ==_iff, Bool-cases, inl, inr,
  if◌then◌else◌, replicate, arith,
}
use websocket_challenge.Limiter.{
  RateLimiter, allow, refill, take_token, generated, positive, int32, less,
}
use websocket_challenge.Limiter.Callers.{Phase, entering, taking, done, advance, System, turn, run}

-- Operations of one caller, one after the other.
operations : ℕ → RateLimiter → Phase → RateLimiter × Phase
operations zero l p = (l, p)
operations (suc n) l p = let q = advance p l in operations n q.0 q.1

done-stays : (n : ℕ) (l : RateLimiter) (b : Bool) → operations n l (done b) ≡ (l, done b)
unfolding operations advance
done-stays zero l b = refl
done-stays (suc n) l b = done-stays n l b

take-alone :
    (n : ℕ) (l : RateLimiter)
    → operations (suc (suc n)) l taking ≡ ((take_token l).0, done (take_token l).1)
unfolding operations advance take_token
take-alone n l = elim (Bool-cases (positive l.token)) [
  | inl held ↦
      rw (held, (==_iff l.token l.token).1 refl)
        (done-stays n (record l { token = l.token - 1 }) true)
  | inr empty ↦ rw empty (done-stays (suc n) l false)
]

allow-alone :
    (now : ℕ) (l : RateLimiter)
    → operations 6 l (entering now) ≡ ((allow now l).0, done (allow now l).1)
unfolding operations advance allow refill
allow-alone now l = elim (Bool-cases (positive (generated now l))) [
  | inl due ↦
      rw (due, (==_iff l.last_tick l.last_tick).1 refl)
        (take-alone 0 (record l {
          last_tick = now;
          token =
              let balance = int32 (l.token + generated now l) in
              if less l.burst balance then l.burst else balance;
        }))
  | inr none_due ↦ rw none_due (take-alone 2 l)
]

-- The turns of `i` are its operations, and no other caller moves.
record Moved (i : ℕ) (q : RateLimiter × Phase) (s t : System) : Type 0 where
  bucket : t.bucket ≡ q.0
  phase : t.phase i ≡ q.1
  others : (j : ℕ) → (j == i) ≡ false → t.phase j ≡ s.phase j

run-Moved :
    (n i : ℕ) (s : System) → Moved i (operations n s.bucket (s.phase i)) s (run (replicate n i) s)
unfolding run operations
run-Moved zero i s = record { bucket = refl; phase = refl; others = λ j differ. refl }
run-Moved (suc n) i s =
    let m = run-Moved n i (turn i s) in
    let own : (turn i s).phase i ≡ (advance (s.phase i) s.bucket).1 =
      unfold turn in ground (arith, ==_iff i i) in
    let same : operations n (turn i s).bucket ((turn i s).phase i)
        ≡ operations (suc n) s.bucket (s.phase i) =
      unfold turn in ap (λ p. operations n (advance (s.phase i) s.bucket).0 p) own in
    record {
      bucket = m.bucket ∙ ap (λ q. q.0) same;
      phase = m.phase ∙ ap (λ q. q.1) same;
      others = λ j differ. m.others j differ ∙ unfold turn in ground (arith, differ);
    }

-- Six turns of a caller that enters at the time `now` leave the bucket and the answer that `allow`
-- gives, and no other caller is where it was not.
pub run-allow :
    (now i : ℕ) (s : System)
    → s.phase i ≡ entering now
    → ((run (replicate 6 i) s).bucket ≡ (allow now s.bucket).0)
      × ((run (replicate 6 i) s).phase i ≡ done (allow now s.bucket).1)
      × ((j : ℕ) → (j == i) ≡ false → (run (replicate 6 i) s).phase j ≡ s.phase j)
run-allow now i s e =
    let m = run-Moved 6 i s in
    let q : operations 6 s.bucket (s.phase i)
        ≡ ((allow now s.bucket).0, done (allow now s.bucket).1) =
      ap (operations 6 s.bucket) e ∙ allow-alone now s.bucket in
    (m.bucket ∙ ap (λ x. x.0) q, m.phase ∙ ap (λ x. x.1) q, m.others)
