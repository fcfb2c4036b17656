-- ===== src/Legacy/Chat/History/Newest.antt =====
-- The last elements of a list, and the history as such.
use websocket_challenge.Base.{
  ℕ, ◌≤◌, ◌≡◌, refl, inl, inr, suc, ◌++◌, Bool-cases, List, [], ◌∷◌, length, length-append, ltb,
  if◌then◌else◌, arith,
}
use websocket_challenge.Legacy.Chat.{Message, remember}

-- The last `n` elements.
abbrev pub newest : {A : Type 0} → ℕ → List A → List A
newest n [] = []
newest n (x ∷ xs) = let rest = newest n xs in if ltb n (suc (length xs)) then rest else x ∷ xs

pub newest_short : (n : ℕ) (xs : List Message) → length xs ≤ n → newest n xs ≡ xs
newest_short n [] le = refl
newest_short n (x ∷ xs) le = ground arith

pub length-newest-le : (n : ℕ) (xs : List Message) → length (newest n xs) ≤ n
length-newest-le n [] = omega arith
length-newest-le n (x ∷ xs) = ground (arith, length-newest-le n xs)

-- To keep the newest before an addition or only after it is the same.
pub newest-append :
    (n : ℕ) (xs ys : List Message) → newest n (newest n xs ++ ys) ≡ newest n (xs ++ ys)
newest-append n [] ys = refl
newest-append n (x ∷ xs) ys = elim (Bool-cases (ltb n (suc (length xs)))) [
  | inl more ↦ ground (arith, newest-append n xs ys, more, length-append xs ys)
  | inr few ↦ rw few refl
]

pub remember-newest :
    (m : Message) (xs : List Message) → length xs ≤ 20 → remember m xs ≡ newest 20 (xs ++ m ∷ [])
unfolding remember
remember-newest m [] le = refl
remember-newest m (x ∷ xs) le =
    ground (arith, newest_short 20 (xs ++ m ∷ []), length-append xs (m ∷ []))
