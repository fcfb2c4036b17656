-- ===== src/Hashing/Restore.antt =====
-- A server that joins and leaves: the ring routes as before, and never to the server that left.
use websocket_challenge.Base.{
  ℕ, zero, suc, ◌<◌, ◌≡◌, ◌∙◌, ◌⊎◌, ◌≢◌, inl, inr, refl, ap, sym, true, false, none, some, List, [],
  ◌∷◌, ◌++◌, arith, ==_iff, Text, codes, append_assoc, Bool-cases, Option-cases, ℕ_discrete, lookup,
  itoa,
}
use websocket_challenge.Hashing.Sorting.{contains, IsSorted}
use websocket_challenge.Hashing.Nodes.{
  Ring, identity, registered, add_replicas, add, get, remove, remove_replicas,
}
use websocket_challenge.Hashing.Lookup.{Clockwise, Clockwise-subset, get_empty, get_of_Clockwise}
use websocket_challenge.Hashing.Changes.{
  replica_hashes, remove_replicas-kept, remove_replicas-gone, remove_replicas-registry,
  remove_replicas-IsSorted,
}
use websocket_challenge.Hashing.Invariant.{
  IsRing, NoCollision, add-accepted, remove-accepted, remove-refused, add-IsRing, remove-IsRing,
}
use websocket_challenge.Hashing.Routing.{get_cases, registered_of_eq, registered_of_some}

nil_of_contains : (ns : List ℕ) → ((m : ℕ) → contains ns m ≡ false) → ns ≡ []
nil_of_contains [] h = refl
nil_of_contains (x ∷ xs) h = absurd (ground (arith, h x, ==_iff x x))

-- Rings with the same nodes and entries route alike.
pub get-ext :
    (hash : Text → ℕ) (key : Text) (q r : Ring)
    → IsSorted q.nodes
    → IsSorted r.nodes
    → ((n : ℕ) → contains q.nodes n ≡ contains r.nodes n)
    → ((n : ℕ) → lookup ℕ_discrete n q.registry ≡ lookup ℕ_discrete n r.registry)
    → get hash key q ≡ get hash key r
get-ext hash key q r sq sr nodes entries = go (get_cases hash key r sr)
  where
    go :
        ((r.nodes ≡ []) × (get hash key r ≡ []))
          ⊎ ((n : ℕ) × Clockwise (hash key) r.nodes n × (get hash key r ≡ registered n r.registry))
        → get hash key q ≡ get hash key r
    go (inl (empty, g)) =
        get_empty hash key q
          (nil_of_contains q.nodes (λ m. nodes m ∙ ap (λ ns. contains ns m) empty))
        ∙ sym g
    go (inr (n, c, g)) =
        get_of_Clockwise hash key q n sq (
          Clockwise-subset (hash key) r.nodes q.nodes n (λ m i. ground (arith, nodes m))
            (nodes n ∙ c.member) c)
        ∙ registered_of_eq n q r (entries n)
        ∙ sym g

-- The virtual node 0 is the one by which `Add` and `Remove` recognise a server.
identity-zero : (node : Text) → identity node 0 ≡ node ++ codes "#0"
unfolding identity itoa
identity-zero node = append_assoc node (codes "#") (codes "0")

module _ (hash : Text → ℕ) where
  add_replicas-replicas :
      (node : Text) (i rounds : ℕ) (r : Ring)
      → (add_replicas hash node i rounds r).replicas ≡ r.replicas
  unfolding add_replicas
  add_replicas-replicas node i zero r = refl
  add_replicas-replicas node i (suc rounds) r = add_replicas-replicas node (suc i) rounds _

  pub add-replicas : (node : Text) (r : Ring) → (add hash node r).0.replicas ≡ r.replicas
  unfolding add
  add-replicas node r =
      elim (Option-cases (lookup ℕ_discrete (hash (node ++ codes "#0")) r.registry)) [
        | inl e ↦ rw (e, add) (add_replicas-replicas node 0 r.replicas r)
        | inr (s, e) ↦ rw (e, add)
      ]

  pub first_hash :
      (node : Text) (k : ℕ)
      → 0 < k
      → contains (replica_hashes hash node 0 k) (hash (node ++ codes "#0")) ≡ true
  unfolding replica_hashes
  first_hash node zero h = elim h [ ]
  first_hash node (suc k) h = ground (arith, ap hash (identity-zero node))

  remove_replicas-replicas :
      (node : Text) (i rounds : ℕ) (r : Ring)
      → (remove_replicas hash node i rounds r).replicas ≡ r.replicas
  unfolding remove_replicas
  remove_replicas-replicas node i zero r = refl
  remove_replicas-replicas node i (suc rounds) r = remove_replicas-replicas node (suc i) rounds _

  pub remove-replicas : (node : Text) (r : Ring) → (remove hash node r).0.replicas ≡ r.replicas
  unfolding remove
  remove-replicas node r =
      elim (Option-cases (lookup ℕ_discrete (hash (node ++ codes "#0")) r.registry)) [
        | inl e ↦ rw (e, remove)
        | inr (s, e) ↦ rw (e, remove) (remove_replicas-replicas node 0 r.replicas r)
      ]

  -- Removing a server never puts an entry into the registry.
  pub remove-registry_none :
      (s : Text) (n : ℕ) (r : Ring)
      → lookup ℕ_discrete n r.registry ≡ none
      → lookup ℕ_discrete n (remove hash s r).0.registry ≡ none
  remove-registry_none s n r e =
      elim (Option-cases (lookup ℕ_discrete (hash (s ++ codes "#0")) r.registry)) [
        | inl f ↦ rw (remove-refused hash s r f) e
        | inr (t, f) ↦
            rw (remove-accepted hash s r f)
              (ground (arith, remove_replicas-registry hash s 0 r.replicas r n))
      ]

  -- After `Remove` the server's first virtual node, by which it is recognised, is gone.
  pub remove-registry_self :
      (s : Text) (r : Ring)
      → 0 < r.replicas
      → lookup ℕ_discrete (hash (s ++ codes "#0")) (remove hash s r).0.registry ≡ none
  remove-registry_self s r pos =
      elim (Option-cases (lookup ℕ_discrete (hash (s ++ codes "#0")) r.registry)) [
        | inl f ↦ rw (remove-refused hash s r f) f
        | inr (t, f) ↦ rw (remove-accepted hash s r f) (
            ground (
              arith,
              first_hash s r.replicas pos,
              remove_replicas-registry hash s 0 r.replicas r (hash (s ++ codes "#0")),
            ))
      ]

  -- On a well-formed ring, a server that is not on it and whose hashes collide with none joins and
  -- leaves; both calls report a change, and every key is routed as before.
  pub remove-add :
      (node key : Text) (r : Ring)
      → IsRing r
      → NoCollision hash node r
      → 0 < r.replicas
      → lookup ℕ_discrete (hash (node ++ codes "#0")) r.registry ≡ none
      → ((add hash node r).1 ≡ true)
        × ((remove hash node (add hash node r).0).1 ≡ true)
        × (get hash key (remove hash node (add hash node r).0).0 ≡ get hash key r)
  remove-add node key r v c pos absent =
      let h = hash (node ++ codes "#0") in
      let (_, at_first, flag) = add-accepted hash node r h absent in
      let taken : lookup ℕ_discrete h (add hash node r).0.registry ≡ some node =
        ground (arith, first_hash node r.replicas pos) in
      (
        flag,
        ap (λ p. p.1) (remove-accepted hash node (add hash node r).0 taken),
        ap (λ p. get hash key p.0) (remove-accepted hash node (add hash node r).0 taken) ∙ routed,
      )
    where
      q : Ring
      q = (add hash node r).0

      vq : IsRing q
      vq = add-IsRing hash node r v c

      own : List ℕ
      own = replica_hashes hash node 0 r.replicas

      out : Ring
      out = remove_replicas hash node 0 r.replicas q

      same :
          (n : ℕ)
          → (contains out.nodes n ≡ contains r.nodes n)
            × (lookup ℕ_discrete n out.registry ≡ lookup ℕ_discrete n r.registry)
      same n =
          let (na, ea, _) = add-accepted hash node r n absent in
          let er = remove_replicas-registry hash node 0 r.replicas q n in
          elim (Bool-cases (contains own n)) [
            | inl mine ↦ (
              remove_replicas-gone hash node 0 r.replicas q n vq.nodup mine ∙ sym (c.fresh n mine),
              ground (arith, c.fresh n mine, v.matched n),
            )
            | inr other ↦ (
              ground (arith, remove_replicas-kept hash node 0 r.replicas q n other),
              ground arith,
            )
          ]

      routed : get hash key (remove_replicas hash node 0 q.replicas q) ≡ get hash key r
      routed = rw (add-replicas node r) (
          get-ext hash key out r (remove_replicas-IsSorted hash node 0 r.replicas q vq.sorted)
            v.sorted (λ n. (same n).0) (λ n. (same n).1))

  -- After a server with a non-empty name that owns only its own hashes is removed from a
  -- well-formed ring, no key is routed to it.
  pub get-remove_self :
      (node key : Text) (r : Ring)
      → IsRing r
      → node ≢ []
      → lookup ℕ_discrete (hash (node ++ codes "#0")) r.registry ≡ some node
      → ((n : ℕ)
          → lookup ℕ_discrete n r.registry ≡ some node
          → contains (replica_hashes hash node 0 r.replicas) n ≡ true)
      → get hash key (remove hash node r).0 ≢ node
  unfolding registered
  get-remove_self node key r v named present owns g = go (get_cases hash key q vq.sorted)
    where
      q : Ring
      q = (remove hash node r).0

      vq : IsRing q
      vq = remove-IsRing hash node r v

      entry : (n : ℕ) → lookup ℕ_discrete n q.registry ≢ some node
      entry n e = ground (
        arith,
        ap (λ p. lookup ℕ_discrete n p.0.registry) (remove-accepted hash node r present),
        remove_replicas-registry hash node 0 r.replicas r n,
        owns n,
      )

      go :
          ((q.nodes ≡ []) × (get hash key q ≡ []))
            ⊎ ((n : ℕ) × Clockwise (hash key) q.nodes n
                × (get hash key q ≡ registered n q.registry))
          → ⊥
      go (inl (_, e)) = named (sym g ∙ e)
      go (inr (n, c, e)) = elim (Option-cases (lookup ℕ_discrete n q.registry)) [
        | inl missing ↦ ground (arith, vq.matched n, c.member)
        | inr (s, found) ↦
            entry n (found ∙ ap some (sym (registered_of_some n q found) ∙ sym e ∙ g))
      ]
