-- ===== src/Hashing/Invariant.antt =====
-- What holds of a ring between two calls, and that `Add` and `Remove` keep it.
use websocket_challenge.Base.{
  IsNodup, contains-append, append-IsNodup, ℕ, zero, suc, ◌≡◌, ◌∙◌, inl, inr, refl, Bool, true,
  false, ◌||◌, Option, none, some, List, [], ◌∷◌, ◌++◌, arith, ◌==◌, ==_iff, if◌then◌else◌, Text,
  codes, Bool-cases, Option-cases, ℕ_discrete, lookup,
}
use websocket_challenge.Hashing.Sorting.{insert_sorted, sort, contains, IsSorted}
use websocket_challenge.Hashing.Nodes.{
  Ring, new_consistent_hashing, identity, add_replicas, add, remove_replicas, remove,
}
use websocket_challenge.Hashing.Order.{sort-IsSorted, contains-sort}
use websocket_challenge.Hashing.Changes.{
  replica_hashes, add_replicas-nodes, add_replicas-registry, remove_replicas-kept,
  remove_replicas-gone, remove_replicas-registry, remove_replicas-IsSorted, remove_replicas-IsNodup,
}

abbrev pub is_some {ℓ} : {A : Type ℓ} → Option A → Bool
is_some none = false
is_some (some a) = true

-- The nodes ascend, none stands twice, and the registry has an entry for exactly the nodes.
pub record IsRing (r : Ring) : Type 0 where
  pub sorted : IsSorted r.nodes
  pub nodup : IsNodup r.nodes
  pub matched : (n : ℕ) → contains r.nodes n ≡ is_some (lookup ℕ_discrete n r.registry)

contains-insert_sorted_ne :
    (x y : ℕ) (ys : List ℕ) → contains (insert_sorted x ys) y ≡ (y == x || contains ys y)
unfolding insert_sorted
contains-insert_sorted_ne x y [] = refl
contains-insert_sorted_ne x y (z ∷ zs) = ground (arith, contains-insert_sorted_ne x y zs)

insert_sorted-IsNodup :
    (x : ℕ) (xs : List ℕ) → contains xs x ≡ false → IsNodup xs → IsNodup (insert_sorted x xs)
unfolding insert_sorted
insert_sorted-IsNodup x [] f u = (refl, tt)
insert_sorted-IsNodup x (y ∷ ys) f u = ground (
  arith,
  contains-insert_sorted_ne x y ys,
  insert_sorted-IsNodup x ys (ground arith) u.1,
  ==_iff x y,
  ==_iff y x,
)

sort-IsNodup : (xs : List ℕ) → IsNodup xs → IsNodup (sort xs)
unfolding sort
sort-IsNodup [] u = tt
sort-IsNodup (x ∷ xs) u =
    insert_sorted-IsNodup x (sort xs) (contains-sort xs x ∙ u.0) (sort-IsNodup xs u.1)

-- A new ring is empty, and well formed.
pub new_consistent_hashing-IsRing : (replicas : ℕ) → IsRing (new_consistent_hashing replicas)
unfolding new_consistent_hashing lookup
new_consistent_hashing-IsRing replicas = record { sorted = tt; nodup = tt; matched = λ n. refl }

module _ (hash : Text → ℕ) where
  -- The server's own hashes differ from one another and from the nodes of the ring.
  pub record NoCollision (node : Text) (r : Ring) : Type 0 where
    pub distinct : IsNodup (replica_hashes hash node 0 r.replicas)
    pub fresh :
        (n : ℕ)
        → contains (replica_hashes hash node 0 r.replicas) n ≡ true
        → contains r.nodes n ≡ false

  add_replicas-IsNodup :
      (node : Text) (i rounds : ℕ) (r : Ring)
      → IsNodup r.nodes
      → IsNodup (replica_hashes hash node i rounds)
      → ((n : ℕ)
          → contains (replica_hashes hash node i rounds) n ≡ true
          → contains r.nodes n ≡ false)
      → IsNodup (add_replicas hash node i rounds r).nodes
  unfolding add_replicas replica_hashes
  add_replicas-IsNodup node i zero r u d f = u
  add_replicas-IsNodup node i (suc rounds) r u d f =
      let h = hash (identity node i) in
      add_replicas-IsNodup node (suc i) rounds _
        (append-IsNodup r.nodes h (f h (ground (arith, ==_iff h h))) u) d.1
        λ n m. ground (arith, f n, contains-append r.nodes (h ∷ []) n, ==_iff n h)

  -- An `Add` that is accepted puts the server's hashes on the ring and into the registry, and
  -- nothing else.
  pub add-accepted :
      (node : Text) (r : Ring) (n : ℕ)
      → lookup ℕ_discrete (hash (node ++ codes "#0")) r.registry ≡ none
      → (contains (add hash node r).0.nodes n
          ≡ (contains r.nodes n || contains (replica_hashes hash node 0 r.replicas) n))
        × (lookup ℕ_discrete n (add hash node r).0.registry ≡ (
            if contains (replica_hashes hash node 0 r.replicas) n
            then some node
            else lookup ℕ_discrete n r.registry))
        × ((add hash node r).1 ≡ true)
  unfolding add
  add-accepted node r n absent =
      rw (absent, add)
        (
          contains-sort (add_replicas hash node 0 r.replicas r).nodes n
              ∙ add_replicas-nodes hash node 0 r.replicas r n,
          add_replicas-registry hash node 0 r.replicas r n,
          refl,
        )

  pub add-refused :
      (node : Text) (r : Ring) {s : Text}
      → lookup ℕ_discrete (hash (node ++ codes "#0")) r.registry ≡ some s
      → add hash node r ≡ (r, false)
  unfolding add
  add-refused node r e = rw (e, add)

  pub remove-accepted :
      (node : Text) (r : Ring) {s : Text}
      → lookup ℕ_discrete (hash (node ++ codes "#0")) r.registry ≡ some s
      → remove hash node r ≡ (remove_replicas hash node 0 r.replicas r, true)
  unfolding remove
  remove-accepted node r e = rw (e, remove)

  pub remove-refused :
      (node : Text) (r : Ring)
      → lookup ℕ_discrete (hash (node ++ codes "#0")) r.registry ≡ none
      → remove hash node r ≡ (r, false)
  unfolding remove
  remove-refused node r e = rw (e, remove)

  -- `Add` keeps the nodes ascending, also where hashes collide.
  pub add-IsSorted :
      (node : Text) (r : Ring) → IsSorted r.nodes → IsSorted (add hash node r).0.nodes
  unfolding add
  add-IsSorted node r s =
      elim (Option-cases (lookup ℕ_discrete (hash (node ++ codes "#0")) r.registry)) [
        | inl e ↦ rw (e, add) (sort-IsSorted (add_replicas hash node 0 r.replicas r).nodes)
        | inr (t, e) ↦ rw (e, add) s
      ]

  -- Adding a server whose hashes collide with none keeps the ring well formed.
  pub add-IsRing :
      (node : Text) (r : Ring) → IsRing r → NoCollision node r → IsRing (add hash node r).0
  add-IsRing node r v c =
      elim (Option-cases (lookup ℕ_discrete (hash (node ++ codes "#0")) r.registry)) [
        | inr (s, e) ↦ rw (add-refused node r e) v
        | inl e ↦ record {
          sorted = add-IsSorted node r v.sorted;
          nodup = nodup_after e;
          matched = λ n. ground (
            arith,
            add-accepted node r n e,
            v.matched n,
            Bool-cases (contains (replica_hashes hash node 0 r.replicas) n),
          );
        }
      ]
    where
      nodup_after :
          lookup ℕ_discrete (hash (node ++ codes "#0")) r.registry ≡ none
          → IsNodup (add hash node r).0.nodes
      nodup_after e =
          unfold add in
          rw (e, add)
            (sort-IsNodup _ (add_replicas-IsNodup node 0 r.replicas r v.nodup c.distinct c.fresh))

  -- Removing any server, present or not, keeps a well-formed ring well formed.
  pub remove-IsRing : (node : Text) (r : Ring) → IsRing r → IsRing (remove hash node r).0
  remove-IsRing node r v =
      elim (Option-cases (lookup ℕ_discrete (hash (node ++ codes "#0")) r.registry)) [
        | inl e ↦ rw (remove-refused node r e) v
        | inr (s, e) ↦ rw (remove-accepted node r e) (record {
          sorted = remove_replicas-IsSorted hash node 0 r.replicas r v.sorted;
          nodup = remove_replicas-IsNodup hash node 0 r.replicas r v.nodup;
          matched = λ n. elim (Bool-cases (contains (replica_hashes hash node 0 r.replicas) n)) [
            | inl own ↦ ground (
              arith,
              remove_replicas-gone hash node 0 r.replicas r n v.nodup own,
              remove_replicas-registry hash node 0 r.replicas r n,
            )
            | inr other ↦ ground (
              arith,
              remove_replicas-kept hash node 0 r.replicas r n other,
              remove_replicas-registry hash node 0 r.replicas r n,
              v.matched n,
            )
          ];
        })
      ]
