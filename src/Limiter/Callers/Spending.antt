-- ===== src/Limiter/Callers/Spending.antt =====
-- One token for many callers: `Allow` does not look at the answer of its second compare-and-swap.
use websocket_challenge.Base.{
  ℕ, ◌-◌, ◌≡◌, refl, ap, ◌∙◌, true, false, List, [], ◌∷◌, ◌++◌, ◌==◌, ==_iff, if◌then◌else◌, arith,
  contains, IsNodup, All,
}
use websocket_challenge.Limiter.{RateLimiter, positive}
use websocket_challenge.Limiter.Callers.{Phase, taking, holding, done, advance, System, turn, run}

run-append : (is js : List ℕ) (s : System) → run (is ++ js) s ≡ run js (run is s)
unfolding run
run-append [] js s = refl
run-append (i ∷ is) js s = run-append is js (turn i s)

-- What the turn of a caller in the phase `p` does.
turn_lem :
    (i : ℕ) (s : System) (p : Phase)
    → s.phase i ≡ p
    → ((turn i s).bucket ≡ (advance p s.bucket).0)
      × ((j : ℕ) → (turn i s).phase j ≡ (if j == i then (advance p s.bucket).1 else s.phase j))
unfolding turn
turn_lem i s p e = (
  ap (λ q. (advance q s.bucket).0) e,
  λ j. ap (λ q. if j == i then (advance q s.bucket).1 else s.phase j) e,
)

-- The others are where they were.
All-turn :
    (i : ℕ) (is : List ℕ) (s : System) (p : Phase)
    → contains is i ≡ false
    → All (λ j. s.phase j ≡ p) is
    → All (λ j. (turn i s).phase j ≡ p) is
unfolding turn
All-turn i [] s p absent a = tt
All-turn i (j ∷ is) s p absent a = (
  ground (arith, a.0, absent, ==_iff i j, ==_iff j i),
  All-turn i is s p (ground (arith, absent)) a.1,
)

-- Each of the callers reads the count.
loads :
    (is : List ℕ) (s : System) (n : ℕ)
    → IsNodup is
    → All (λ i. s.phase i ≡ taking) is
    → s.bucket.token ≡ n
    → positive n ≡ true
    → ((run is s).bucket ≡ s.bucket)
      × ((j : ℕ) → (run is s).phase j ≡ (if contains is j then holding n else s.phase j))
unfolding run
loads [] s n u a e held = (refl, λ j. refl)
loads (i ∷ is) s n u a e held =
    let read : advance taking s.bucket ≡ (s.bucket, holding n) =
      unfold advance in rw (e, held) refl in
    let (b, ph) = turn_lem i s taking a.0 in
    let same : (turn i s).bucket ≡ s.bucket = b ∙ ap (λ q. q.0) read in
    let (b', ph') =
      loads is (turn i s) n u.1 (All-turn i is s taking u.0 a.1)
        (ap (λ (l : RateLimiter). l.token) same ∙ e) held in
    (b' ∙ same, λ j. ph' j ∙ ground (arith, ph j, ap (λ q. q.1) read))

-- Each of the callers that hold a count is allowed, also where the count is no longer that.
swaps :
    (is : List ℕ) (s : System) (n : ℕ)
    → IsNodup is
    → All (λ i. s.phase i ≡ holding n) is
    → (j : ℕ) → (run is s).phase j ≡ (if contains is j then done true else s.phase j)
unfolding run advance
swaps [] s n u a j = refl
swaps (i ∷ is) s n u a j =
    swaps is (turn i s) n u.1 (All-turn i is s (holding n) u.0 a.1) j
    ∙ ground (arith, (turn_lem i s (holding n) a.0).1 j)

swaps_late :
    (is : List ℕ) (s : System) (n : ℕ)
    → IsNodup is
    → All (λ i. s.phase i ≡ holding n) is
    → (s.bucket.token == n) ≡ false
    → (run is s).bucket ≡ s.bucket
unfolding run advance
swaps_late [] s n u a gone = refl
swaps_late (i ∷ is) s n u a gone =
    let same : (turn i s).bucket ≡ s.bucket = (turn_lem i s (holding n) a.0).0 ∙ rw gone refl in
    swaps_late is (turn i s) n u.1 (All-turn i is s (holding n) u.0 a.1) (rw same gone) ∙ same

All-contained :
    (is : List ℕ) (s : System) (p : Phase)
    → ((j : ℕ) → contains is j ≡ true → s.phase j ≡ p)
    → All (λ j. s.phase j ≡ p) is
All-contained [] s p f = tt
All-contained (i ∷ is) s p f =
    (f i (ground (arith, ==_iff i i)), All-contained is s p (λ j m. f j (ground (arith, m))))

-- The first swap takes the token, and the others miss it.
swaps-token :
    (i : ℕ) (is : List ℕ) (s : System) (n : ℕ)
    → IsNodup (i ∷ is)
    → All (λ j. s.phase j ≡ holding n) (i ∷ is)
    → s.bucket.token ≡ n
    → positive n ≡ true
    → (run (i ∷ is) s).bucket.token ≡ n - 1
unfolding run
swaps-token i is s n u a e held =
    let taken : (turn i s).bucket.token ≡ n - 1 =
      ap (λ (l : RateLimiter). l.token) (turn_lem i s (holding n) a.0).0
      ∙ unfold advance in ground (arith, e, ==_iff s.bucket.token n) in
    let late =
      swaps_late is (turn i s) n u.1 (All-turn i is s (holding n) u.0 a.1)
        (ground (arith, taken, held, ==_iff (turn i s).bucket.token n)) in
    ap (λ (l : RateLimiter). l.token) late ∙ taken

-- Callers at the loop of a bucket that holds a token, of which each reads the count before any of
-- them swaps it: all of them are allowed, and the bucket has lost one token.
pub run-overspends :
    (i : ℕ) (is : List ℕ) (s : System)
    → IsNodup (i ∷ is)
    → All (λ j. s.phase j ≡ taking) (i ∷ is)
    → positive s.bucket.token ≡ true
    → let t = run ((i ∷ is) ++ i ∷ is) s in
      ((j : ℕ) → contains (i ∷ is) j ≡ true → t.phase j ≡ done true)
      × (t.bucket.token ≡ s.bucket.token - 1)
run-overspends i is s u a held =
    let n = s.bucket.token in
    let s₁ = run (i ∷ is) s in
    let (b, ph) = loads (i ∷ is) s n u a refl held in
    let same : s₁.bucket.token ≡ n = ap (λ (l : RateLimiter). l.token) b in
    let holders : All (λ j. s₁.phase j ≡ holding n) (i ∷ is) =
      All-contained (i ∷ is) s₁ (holding n) (λ j m. ph j ∙ rw m refl) in
    rw (run-append (i ∷ is) (i ∷ is) s) (
      λ j m. swaps (i ∷ is) s₁ n u holders j ∙ rw m refl,
      swaps-token i is s₁ n u holders same held,
    )
