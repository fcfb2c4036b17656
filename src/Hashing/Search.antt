-- ===== src/Hashing/Search.antt =====
-- `sort.Search`, the binary search that the ring calls.
use websocket_challenge.Base.{ℕ, zero, suc, ◌+◌, ◌/◌, Bool, true, false, ltb}

unfoldable pub search_from : ℕ → ℕ → ℕ → (ℕ → Bool) → ℕ
search_from zero i j f = i
search_from (suc fuel) i j f =
    let h = (i + j) / 2 in
    elim (ltb i j) [
      | true ↦ elim (f h) [ true ↦ search_from fuel i h f | false ↦ search_from fuel (h + 1) j f ]
      | false ↦ i
    ]

-- Each round shrinks `j - i`, so `n` rounds are enough for `n` places.
unfoldable pub search_index : ℕ → (ℕ → Bool) → ℕ
unfolding search_from
search_index n f = search_from n 0 n f
