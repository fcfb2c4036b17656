-- ===== src/Hashing/Members/Calls.antt =====
-- What one call of `Add` or `Remove` does to the servers that a ring holds.
use websocket_challenge.Base.{
  ℕ, ◌≡◌, ◌<◌, ◌∙◌, inl, inr, sym, ap, subst, Bool, true, false, ◌||◌, none, some, ◌++◌, arith,
  if◌then◌else◌, Bool-cases, Option-cases, Text, ◌≟◌, codes, contains, IsNodup, ℕ_discrete, lookup,
}
use websocket_challenge.Hashing.Nodes.{Ring, add, remove}
use websocket_challenge.Hashing.Changes.{replica_hashes, remove_replicas-registry}
use websocket_challenge.Hashing.Invariant.{
  NoCollision, is_some, add-IsRing, remove-IsRing, add-accepted, add-refused, remove-accepted,
  remove-refused,
}
use websocket_challenge.Hashing.Restore.{first_hash, add-replicas, remove-replicas}
use websocket_challenge.Hashing.Members.{owns, CollisionFree, Represents}

module _ (hash : Text → ℕ) where
  module _ (replicas : ℕ) (known alive : Text → Bool) (free : CollisionFree hash replicas known)
      (some_replica : 0 < replicas) (r : Ring) (v : Represents hash replicas known alive r) where
    has_entry :
        (s : Text) → alive s ≡ true → lookup ℕ_discrete (hash (s ++ codes "#0")) r.registry ≡ some s
    has_entry s a = v.complete _ s a (first_hash hash s replicas some_replica)

    -- No other server stands where a server would stand that is no member.
    vacant :
        (s : Text) (n : ℕ)
        → known s ≡ true
        → alive s ≡ false
        → owns hash replicas s n ≡ true
        → lookup ℕ_discrete n r.registry ≡ none
    vacant s n k dead o = elim (Option-cases (lookup ℕ_discrete n r.registry)) [
      | inl e ↦ e
      | inr (t, e) ↦
          let (a, p) = v.sound n t e in
          absurd (ground (arith, a, dead, ap alive (free.apart s t n k (v.all_known t a) o p)))
    ]

    collides_not : (s : Text) → known s ≡ true → alive s ≡ false → NoCollision hash s r
    collides_not s k dead = record {
      distinct = subst (λ c. IsNodup (replica_hashes hash s 0 c)) (sym v.count) (free.distinct s k);
      fresh = λ n o.
          v.valid.matched n
          ∙ ap is_some (
              vacant s n k dead
                (subst (λ c. contains (replica_hashes hash s 0 c) n ≡ true) v.count o));
    }

    entry-add :
        (s : Text) (n : ℕ)
        → lookup ℕ_discrete (hash (s ++ codes "#0")) r.registry ≡ none
        → lookup ℕ_discrete n (add hash s r).0.registry
          ≡ (if owns hash replicas s n then some s else lookup ℕ_discrete n r.registry)
    entry-add s n absent =
        (add-accepted hash s r n absent).1
        ∙ ap
            (λ c.
              if contains (replica_hashes hash s 0 c) n
              then some s
              else lookup ℕ_discrete n r.registry)
            v.count

    entry-remove :
        (s : Text) (n : ℕ)
        → alive s ≡ true
        → lookup ℕ_discrete n (remove hash s r).0.registry
          ≡ (if owns hash replicas s n then none else lookup ℕ_discrete n r.registry)
    entry-remove s n a =
        ap (λ q. lookup ℕ_discrete n q.0.registry) (remove-accepted hash s r (has_entry s a))
        ∙ remove_replicas-registry hash s 0 r.replicas r n
        ∙ ap
            (λ c.
              if contains (replica_hashes hash s 0 c) n
              then none
              else lookup ℕ_discrete n r.registry)
            v.count

    pub add-Represents :
        (s : Text)
        → known s ≡ true
        → Represents hash replicas known (λ u. u ≟ s || alive u) (add hash s r).0
    add-Represents s k = elim (Bool-cases (alive s)) [
      | inl a ↦ rw (add-refused hash s r (has_entry s a)) (record {
        valid = v.valid;
        count = v.count;
        all_known = λ u e. ground (arith, v.all_known u, k, e);
        sound = λ n u e. let (b, p) = v.sound n u e in (ground (arith, b), p);
        complete = λ n u e p. v.complete n u (ground (arith, e, a)) p;
      })
      | inr dead ↦
          let absent = vacant s _ k dead (first_hash hash s replicas some_replica) in
          record {
            valid = add-IsRing hash s r v.valid (collides_not s k dead);
            count = add-replicas hash s r ∙ v.count;
            all_known = λ u e. ground (arith, v.all_known u, k, e);
            sound = λ n u e. ground (arith, entry-add s n absent, e, v.sound n u);
            complete = λ n u e p. elim (Bool-cases (owns hash replicas s n)) [
              | inl o ↦ ground (
                arith,
                entry-add s n absent,
                o,
                λ (a : alive u ≡ true). free.apart s u n k (v.all_known u a) o p,
                e,
              )
              | inr o ↦ ground (arith, entry-add s n absent, o, v.complete n u, e, p)
            ];
          }
    ]

    pub remove-Represents :
        (s : Text)
        → known s ≡ true
        → Represents hash replicas known (λ u. if u ≟ s then false else alive u) (remove hash s r).0
    remove-Represents s k = record {
      valid = remove-IsRing hash s r v.valid;
      count = remove-replicas hash s r ∙ v.count;
      all_known = λ u e. ground (arith, v.all_known u, e);
      sound = sound_after;
      complete = complete_after;
    }
      where
        dead_same :
            alive s ≡ false
            → (n : ℕ)
            → lookup ℕ_discrete n (remove hash s r).0.registry ≡ lookup ℕ_discrete n r.registry
        dead_same dead n =
            ap (λ q. lookup ℕ_discrete n q.0.registry)
              (remove-refused hash s r
                (vacant s _ k dead (first_hash hash s replicas some_replica)))

        sound_after :
            (n : ℕ) (u : Text)
            → lookup ℕ_discrete n (remove hash s r).0.registry ≡ some u
            → ((if u ≟ s then false else alive u) ≡ true) × (owns hash replicas u n ≡ true)
        sound_after n u e = elim (Bool-cases (alive s)) [
          | inl a ↦ ground (arith, entry-remove s n a, e, v.sound n u)
          | inr dead ↦ ground (arith, dead_same dead n, e, v.sound n u, dead)
        ]

        complete_after :
            (n : ℕ) (u : Text)
            → (if u ≟ s then false else alive u) ≡ true
            → owns hash replicas u n ≡ true
            → lookup ℕ_discrete n (remove hash s r).0.registry ≡ some u
        complete_after n u e p = elim (Bool-cases (alive s)) [
          | inr dead ↦ ground (arith, dead_same dead n, v.complete n u, e, p)
          | inl a ↦ elim (Bool-cases (owns hash replicas s n)) [
            | inr o ↦ ground (arith, entry-remove s n a, o, v.complete n u, e, p)
            | inl o ↦
                ground (arith, e, λ (b : alive u ≡ true). free.apart s u n k (v.all_known u b) o p)
          ]
        ]
