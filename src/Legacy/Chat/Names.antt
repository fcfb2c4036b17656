-- ===== src/Legacy/Chat/Names.antt =====
-- The names that `generateRandomName` of legacy/challenge-7/chat.go makes from the clock.
use websocket_challenge.Base.{
  ℕ, ◌/◌, ◌%◌, ◌≡◌, ◌↔◌, refl, ap, zero, suc, ◌++◌, [], ◌∷◌, get_or, Text, codes, arith, ◌-◌, leb,
  ◌==◌, ==_iff, if◌then◌else◌, Bool, true, ◌&&◌, Bool-cases, inl, inr, ◌<◌, ◌∙◌, sym, subst,
}

abbrev pub charset : Text
charset = codes "abcdefghijklmnopqrstuvwxyz0123456789"

-- The loop over `b`, of `n` bytes; the clock is not before 1970, so that no index is negative.
unfoldable pub random_bytes : ℕ → ℕ → Text
random_bytes zero seed = []
random_bytes (suc n) seed = get_or charset (seed % 36) 0 ∷ random_bytes n (seed / 36)

unfoldable pub generate_random_name : ℕ → Text
unfolding random_bytes
generate_random_name seed = codes "User_" ++ random_bytes 4 seed

-- The index of a letter or digit in the character set.
index : ℕ → ℕ
index c = if leb 97 c then c - 97 else c - 22

indices_agree : ℕ → Bool
unfolding index
indices_agree zero = true
indices_agree (suc n) = index (get_or charset n 0) == n && indices_agree n

index-get_or : (n i : ℕ) → indices_agree n ≡ true → i < n → index (get_or charset i 0) ≡ i
unfolding indices_agree
index-get_or zero i e lt = omega arith
index-get_or (suc n) i e lt = elim (Bool-cases (i == n)) [
  | inl same ↦
      subst (λ k. index (get_or charset k 0) ≡ k) (sym ((==_iff i n).0 same))
        ((==_iff (index (get_or charset n 0)) n).0 (ground (arith, e)))
  | inr differ ↦ index-get_or n i (ground (arith, e)) (ground (arith, differ, lt))
]

charset_injective : (i j : ℕ) → i < 36 → j < 36 → get_or charset i 0 ≡ get_or charset j 0 → i ≡ j
charset_injective i j a b e =
    sym (index-get_or 36 i (unfold indices_agree in refl) a)
    ∙ ap index e
    ∙ index-get_or 36 j (unfold indices_agree in refl) b

letter_agree :
    (s t : ℕ) → get_or charset (s % 36) 0 ≡ get_or charset (t % 36) 0 → (s % 36) ≡ (t % 36)
letter_agree s t e = charset_injective (s % 36) (t % 36) (omega arith) (omega arith) e

digits_agree :
    (s t : ℕ)
    → (s % 36) ≡ (t % 36)
    → (s / 36 % 36) ≡ (t / 36 % 36)
    → (s / 36 / 36 % 36) ≡ (t / 36 / 36 % 36)
    → (s / 36 / 36 / 36 % 36) ≡ (t / 36 / 36 / 36 % 36)
    → (s % 1679616) ≡ (t % 1679616)
digits_agree s t a b c d = omega arith

random_bytes-mod : (s t : ℕ) → (s % 1679616) ≡ (t % 1679616) → random_bytes 4 s ≡ random_bytes 4 t
unfolding random_bytes
random_bytes-mod s t e =
    let first : (s % 36) ≡ (t % 36) = omega arith in
    let second : (s / 36 % 36) ≡ (t / 36 % 36) = omega arith in
    let third : (s / 36 / 36 % 36) ≡ (t / 36 / 36 % 36) = omega arith in
    let fourth : (s / 36 / 36 / 36 % 36) ≡ (t / 36 / 36 / 36 % 36) = omega arith in
    rw (first, second, third, fourth) refl

-- Two clients get the same name exactly when the clock readings, in nanoseconds, agree modulo
-- 36 ^ 4.
pub generate_random_name_iff :
    (s t : ℕ) → generate_random_name s ≡ generate_random_name t ↔ (s % 1679616) ≡ (t % 1679616)
unfolding generate_random_name
generate_random_name_iff s t = (
  λ e.
      digits_agree s t (letter_agree s t (ap (λ x. get_or x 5 0) e))
        (letter_agree (s / 36) (t / 36) (ap (λ x. get_or x 6 0) e))
        (letter_agree (s / 36 / 36) (t / 36 / 36) (ap (λ x. get_or x 7 0) e))
        (letter_agree (s / 36 / 36 / 36) (t / 36 / 36 / 36) (ap (λ x. get_or x 8 0) e)),
  λ e. ap (λ b. codes "User_" ++ b) (random_bytes-mod s t e),
)
