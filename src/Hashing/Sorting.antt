-- ===== src/Hashing/Sorting.antt =====
-- What the ring uses of package `slices`: `slices.Sort`, whose result on numbers is determined.
pub use websocket_challenge.Base.{contains}
use websocket_challenge.Base.{ℕ, ◌≤◌, List, [], ◌∷◌, leb, if◌then◌else◌}

unfoldable pub insert_sorted : ℕ → List ℕ → List ℕ
insert_sorted x [] = x ∷ []
insert_sorted x (y ∷ ys) = if leb x y then x ∷ y ∷ ys else y ∷ insert_sorted x ys

unfoldable pub sort : List ℕ → List ℕ
unfolding insert_sorted
sort [] = []
sort (x ∷ xs) = insert_sorted x (sort xs)

abbrev pub IsBelow : ℕ → List ℕ → Type 0
IsBelow x [] = Unit
IsBelow x (y ∷ ys) = (x ≤ y) × IsBelow x ys

abbrev pub IsSorted : List ℕ → Type 0
IsSorted [] = Unit
IsSorted (x ∷ xs) = IsBelow x xs × IsSorted xs
