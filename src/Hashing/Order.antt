-- ===== src/Hashing/Order.antt =====
-- `sort` sorts and keeps the elements; `search_index` finds the least index that passes.
use websocket_challenge.Base.{
  ℕ, zero, suc, ◌+◌, ◌-◌, ◌≤◌, ◌<◌, ◌/◌, ◌≡◌, refl, Bool, true, false, ◌||◌, List, [], ◌∷◌, arith,
  leb, ltb, ◌==◌, length, get_or, inl, inr, Bool-cases,
}
use websocket_challenge.Hashing.Sorting.{insert_sorted, sort, contains, IsBelow, IsSorted}
use websocket_challenge.Hashing.Search.{search_from, search_index}

contains-insert_sorted :
    (x y : ℕ) (ys : List ℕ) → contains (insert_sorted x ys) y ≡ (y == x || contains ys y)
unfolding insert_sorted
contains-insert_sorted x y [] = refl
contains-insert_sorted x y (z ∷ zs) = ground (arith, contains-insert_sorted x y zs)

pub contains-sort : (xs : List ℕ) (y : ℕ) → contains (sort xs) y ≡ contains xs y
unfolding sort
contains-sort [] y = refl
contains-sort (x ∷ xs) y = ground (arith, contains-insert_sorted x y (sort xs), contains-sort xs y)

IsBelow-insert_sorted :
    (z x : ℕ) (xs : List ℕ) → z ≤ x → IsBelow z xs → IsBelow z (insert_sorted x xs)
unfolding insert_sorted
IsBelow-insert_sorted z x [] h b = (h, tt)
IsBelow-insert_sorted z x (y ∷ ys) h b = ground (arith, IsBelow-insert_sorted z x ys h b.1)

IsBelow-trans : (x y : ℕ) (ys : List ℕ) → x ≤ y → IsBelow y ys → IsBelow x ys
IsBelow-trans x y [] h b = tt
IsBelow-trans x y (z ∷ zs) h b = (omega arith, IsBelow-trans x y zs h b.1)

insert_sorted-IsSorted : (x : ℕ) (xs : List ℕ) → IsSorted xs → IsSorted (insert_sorted x xs)
unfolding insert_sorted
insert_sorted-IsSorted x [] s = (tt, tt)
insert_sorted-IsSorted x (y ∷ ys) s = elim (Bool-cases (leb x y)) [
  | inl e ↦ rw e ((ground arith, IsBelow-trans x y ys (ground arith) s.0), s)
  | inr e ↦ rw e (IsBelow-insert_sorted y x ys (ground arith) s.0, insert_sorted-IsSorted x ys s.1)
]

-- `slices.Sort` leaves an ascending list.
pub sort-IsSorted : (xs : List ℕ) → IsSorted (sort xs)
unfolding sort
sort-IsSorted [] = tt
sort-IsSorted (x ∷ xs) = insert_sorted-IsSorted x (sort xs) (sort-IsSorted xs)

pub le_of_IsBelow : (x y : ℕ) (xs : List ℕ) → IsBelow x xs → contains xs y ≡ true → x ≤ y
le_of_IsBelow x y [] b m = cc
le_of_IsBelow x y (z ∷ zs) b m = ground (arith, le_of_IsBelow x y zs b.1)

pub contains-get_or : (xs : List ℕ) (i : ℕ) → i < length xs → contains xs (get_or xs i 0) ≡ true
contains-get_or [] i h = elim h [ ]
contains-get_or (x ∷ xs) zero h = ground arith
contains-get_or (x ∷ xs) (suc i) h = ground (arith, contains-get_or xs i (omega arith))

pub index_of :
    (xs : List ℕ) (y : ℕ) → contains xs y ≡ true → (i : ℕ) × (i < length xs) × (get_or xs i 0 ≡ y)
index_of [] y m = cc
index_of (x ∷ xs) y m = elim (Bool-cases (y == x)) [
  | inl e ↦ (0, omega arith, ground arith)
  | inr e ↦ let (i, h, g) = index_of xs y (ground arith) in (suc i, omega arith, g)
]

pub get_or_mono :
    (xs : List ℕ) (i j : ℕ) → IsSorted xs → i ≤ j → j < length xs → get_or xs i 0 ≤ get_or xs j 0
get_or_mono [] i j s h l = elim l [ ]
get_or_mono (x ∷ xs) zero zero s h l = omega arith
get_or_mono (x ∷ xs) zero (suc j) s h l =
    le_of_IsBelow x (get_or xs j 0) xs s.0 (contains-get_or xs j (omega arith))
get_or_mono (x ∷ xs) (suc i) zero s h l = absurd (omega arith)
get_or_mono (x ∷ xs) (suc i) (suc j) s h l = get_or_mono xs i j s.1 (omega arith) (omega arith)

-- `f` fails below `k`, and passes from `k` on, below `n`.
pub record Splits (f : ℕ → Bool) (n k : ℕ) : Type 0 where
  pub bounded : k ≤ n
  pub fails : (m : ℕ) → m < k → f m ≡ false
  pub passes : (m : ℕ) → k ≤ m → m < n → f m ≡ true

module _ (f : ℕ → Bool) (n : ℕ) (mono : (a b : ℕ) → a ≤ b → b < n → f a ≡ true → f b ≡ true) where
  search_from-Splits :
      (fuel i j : ℕ)
      → j - i ≤ fuel
      → i ≤ j
      → j ≤ n
      → ((m : ℕ) → m < i → f m ≡ false)
      → ((m : ℕ) → j ≤ m → m < n → f m ≡ true)
      → Splits f n (search_from fuel i j f)
  unfolding search_from
  search_from-Splits zero i j e le jn lo hi = record {
    bounded = omega arith;
    fails = lo;
    passes = λ m a b. hi m (omega arith) b;
  }
  search_from-Splits (suc fuel) i j e le jn lo hi = elim (Bool-cases (ltb i j)) [
    | inr stop ↦
        rw (stop, search_from)
          (record { bounded = omega arith; fails = lo; passes = λ m a b. hi m (ground arith) b })
    | inl go ↦ elim (Bool-cases (f ((i + j) / 2))) [
      | inl pass ↦
          rw (go, pass, search_from)
            (search_from-Splits fuel i ((i + j) / 2) (ground arith) (ground arith) (ground arith) lo
              λ m a b. mono ((i + j) / 2) m a b pass)
      | inr fail ↦
          rw (go, fail, search_from)
            (search_from-Splits fuel ((i + j) / 2 + 1) j (ground arith) (ground arith) jn
              (λ m a. elim (Bool-cases (f m)) [
                | inr r ↦ r
                | inl r ↦
                    absurd (ground (arith, mono m ((i + j) / 2) (omega arith) (ground arith) r))
              ])
              hi)
    ]
  ]

  -- `sort.Search` returns the least index that passes, or `n` if none does.
  pub search_index-Splits : Splits f n (search_index n f)
  unfolding search_index
  search_index-Splits =
      search_from-Splits n 0 n (omega arith) (omega arith) (omega arith) (λ m h. elim h [ ])
        (λ m a b. absurd (omega arith))
