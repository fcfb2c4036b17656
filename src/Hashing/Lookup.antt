-- ===== src/Hashing/Lookup.antt =====
-- `Get`: the owner of a key is the server of the first virtual node at or after the key's hash, in
-- the order of the circle.
use websocket_challenge.Base.{
  ℕ, ◌≤◌, ◌<◌, ◌≡◌, ◌∙◌, subst, ◌⊎◌, inl, inr, ap, true, List, [], ◌∷◌, arith, leb, ◌==◌,
  if◌then◌else◌, length, get_or, Text, Bool-cases,
}
use websocket_challenge.Hashing.Sorting.{contains, IsSorted}
use websocket_challenge.Hashing.Search.{search_index}
use websocket_challenge.Hashing.Nodes.{Ring, registered, get}
use websocket_challenge.Hashing.Order.{
  Splits, search_index-Splits, get_or_mono, contains-get_or, index_of,
}

-- `n` is the least node that is at least `h`; where there is none, the least node of all.
pub record Clockwise (h : ℕ) (ns : List ℕ) (n : ℕ) : Type 0 where
  pub member : contains ns n ≡ true
  pub nearest :
      ((h ≤ n) × ((m : ℕ) → contains ns m ≡ true → h ≤ m → n ≤ m))
      ⊎ (((m : ℕ) → contains ns m ≡ true → m < h) × ((m : ℕ) → contains ns m ≡ true → n ≤ m))

-- The circle has one such node.
pub Clockwise-unique : (h : ℕ) (ns : List ℕ) (n m : ℕ) → Clockwise h ns n → Clockwise h ns m → n ≡ m
Clockwise-unique h ns n m p q = go p.nearest q.nearest
  where
    go :
        ((h ≤ n) × ((k : ℕ) → contains ns k ≡ true → h ≤ k → n ≤ k))
          ⊎ (((k : ℕ) → contains ns k ≡ true → k < h) × ((k : ℕ) → contains ns k ≡ true → n ≤ k))
        → ((h ≤ m) × ((k : ℕ) → contains ns k ≡ true → h ≤ k → m ≤ k))
          ⊎ (((k : ℕ) → contains ns k ≡ true → k < h) × ((k : ℕ) → contains ns k ≡ true → m ≤ k))
        → n ≡ m
    go (inl a) (inl b) = omega (arith, a.1 m q.member b.0, b.1 n p.member a.0)
    go (inl a) (inr b) = absurd (omega (arith, b.0 n p.member))
    go (inr a) (inl b) = absurd (omega (arith, a.0 m q.member))
    go (inr a) (inr b) = omega (arith, a.1 m q.member, b.1 n p.member)

-- A node that is nearest in a larger circle is nearest in each part of it that holds the node.
pub Clockwise-subset :
    (h : ℕ) (ns ms : List ℕ) (n : ℕ)
    → ((m : ℕ) → contains ms m ≡ true → contains ns m ≡ true)
    → contains ms n ≡ true
    → Clockwise h ns n
    → Clockwise h ms n
Clockwise-subset h ns ms n sub here c = record { member = here; nearest = go c.nearest }
  where
    go :
        ((h ≤ n) × ((m : ℕ) → contains ns m ≡ true → h ≤ m → n ≤ m))
          ⊎ (((m : ℕ) → contains ns m ≡ true → m < h) × ((m : ℕ) → contains ns m ≡ true → n ≤ m))
        → ((h ≤ n) × ((m : ℕ) → contains ms m ≡ true → h ≤ m → n ≤ m))
          ⊎ (((m : ℕ) → contains ms m ≡ true → m < h) × ((m : ℕ) → contains ms m ≡ true → n ≤ m))
    go (inl a) = inl (a.0, λ m i. a.1 m (sub m i))
    go (inr a) = inr (λ m i. a.0 m (sub m i), λ m i. a.1 m (sub m i))

-- The index that the binary search and the wrap-around of `Get` arrive at.
abbrev pub chosen : ℕ → List ℕ → ℕ
chosen h ns =
    let idx = search_index (length ns) (λ i. leb h (get_or ns i 0)) in
    get_or ns (if idx == length ns then 0 else idx) 0

module _ (h : ℕ) (ns : List ℕ) (sorted : IsSorted ns) where
  test_mono :
      (a b : ℕ)
      → a ≤ b
      → b < length ns
      → leb h (get_or ns a 0) ≡ true
      → leb h (get_or ns b 0) ≡ true
  test_mono a b le bound p = ground (arith, get_or_mono ns a b sorted le bound)

  splits :
      Splits
        (λ i. leb h (get_or ns i 0))
        (length ns)
        (search_index (length ns) (λ i. leb h (get_or ns i 0)))
  splits = search_index-Splits (λ i. leb h (get_or ns i 0)) (length ns) test_mono

  found_at :
      (k : ℕ)
      → Splits (λ i. leb h (get_or ns i 0)) (length ns) k
      → k < length ns
      → Clockwise h ns (get_or ns k 0)
  found_at k s bound = record {
    member = contains-get_or ns k bound;
    nearest = inl (ground (arith, s.passes k (omega arith) bound), least);
  }
    where
      least : (m : ℕ) → contains ns m ≡ true → h ≤ m → get_or ns k 0 ≤ m
      least m i le =
          let (j, jb, je) = index_of ns m i in
          elim (Bool-cases (leb k j)) [
            | inl kj ↦ omega (arith, get_or_mono ns k j sorted (ground arith) jb, je)
            | inr jk ↦ absurd (ground (arith, s.fails j (ground arith)))
          ]

  wrapped :
      Splits (λ i. leb h (get_or ns i 0)) (length ns) (length ns)
      → 0 < length ns
      → Clockwise h ns (get_or ns 0 0)
  wrapped s bound = record { member = contains-get_or ns 0 bound; nearest = inr (below, least) }
    where
      below : (m : ℕ) → contains ns m ≡ true → m < h
      below m i = let (j, jb, je) = index_of ns m i in ground (arith, s.fails j jb)

      least : (m : ℕ) → contains ns m ≡ true → get_or ns 0 0 ≤ m
      least m i =
          let (j, jb, je) = index_of ns m i in
          omega (arith, get_or_mono ns 0 j sorted (omega arith) jb, je)

  pub chosen-Clockwise : 0 < length ns → Clockwise h ns (chosen h ns)
  chosen-Clockwise bound =
      let k = search_index (length ns) (λ i. leb h (get_or ns i 0)) in
      elim (Bool-cases (k == length ns)) [
        | inl e ↦ rw e (wrapped (subst_end (ground arith)) bound)
        | inr e ↦ rw e (found_at k splits (ground (arith, splits.bounded)))
      ]
    where
      subst_end :
          search_index (length ns) (λ i. leb h (get_or ns i 0)) ≡ length ns
          → Splits (λ i. leb h (get_or ns i 0)) (length ns) (length ns)
      subst_end e = subst (Splits (λ i. leb h (get_or ns i 0)) (length ns)) e splits

module _ (hash : Text → ℕ) where
  pub get_empty : (key : Text) (r : Ring) → r.nodes ≡ [] → get hash key r ≡ []
  unfolding get
  get_empty key r e = rw e

  -- On a sorted ring that is not empty, `Get` returns the server that the registry holds for the
  -- node that is nearest clockwise to the key's hash.
  pub get-Clockwise :
      (key : Text) (r : Ring)
      → IsSorted r.nodes
      → 0 < length r.nodes
      → Clockwise (hash key) r.nodes (chosen (hash key) r.nodes)
        × (get hash key r ≡ registered (chosen (hash key) r.nodes) r.registry)
  unfolding get
  get-Clockwise key r s bound = (chosen-Clockwise (hash key) r.nodes s bound, ground arith)

  pub get_of_Clockwise :
      (key : Text) (r : Ring) (n : ℕ)
      → IsSorted r.nodes
      → Clockwise (hash key) r.nodes n
      → get hash key r ≡ registered n r.registry
  get_of_Clockwise key r n s c =
      let (d, e) = get-Clockwise key r s (nonempty r.nodes n c.member) in
      e ∙ ap (λ m. registered m r.registry) (Clockwise-unique (hash key) r.nodes _ n d c)
    where
      nonempty : (ns : List ℕ) (m : ℕ) → contains ns m ≡ true → 0 < length ns
      nonempty [] m i = cc
      nonempty (x ∷ xs) m i = omega arith
