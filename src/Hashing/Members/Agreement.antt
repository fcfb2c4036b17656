-- ===== src/Hashing/Members/Agreement.antt =====
-- A ring is what its log makes it, and servers that agree on the members route alike.
use websocket_challenge.Base.{
  ℕ, ◌≡◌, ◌<◌, ◌∙◌, inl, inr, refl, sym, ap, Bool, true, false, List, [], ◌∷◌, ◌++◌, arith,
  Option-cases, Text, codes, contains, ℕ_discrete, lookup, All,
}
use websocket_challenge.Hashing.Nodes.{Ring, new_consistent_hashing, get}
use websocket_challenge.Hashing.Invariant.{is_some, new_consistent_hashing-IsRing}
use websocket_challenge.Hashing.Restore.{first_hash, get-ext}
use websocket_challenge.Hashing.Routing.{get_cases, registered_of_some}
use websocket_challenge.Hashing.Members.{
  Change, joins, leaves, server_of, members, ring_of, CollisionFree, Represents,
}
use websocket_challenge.Hashing.Members.Calls.{add-Represents, remove-Represents}

module _ (hash : Text → ℕ) where
  module _ (replicas : ℕ) (known : Text → Bool) (free : CollisionFree hash replicas known)
      (some_replica : 0 < replicas) where
    pub new-Represents :
        Represents hash replicas known (λ u. false) (new_consistent_hashing replicas)
    unfolding new_consistent_hashing lookup
    new-Represents = record {
      valid = unfold new_consistent_hashing in new_consistent_hashing-IsRing replicas;
      count = refl;
      all_known = λ s e. ground (arith, e);
      sound = λ n s e. ground (arith, e);
      complete = λ n s e p. ground (arith, e);
    }

    -- Any log of joins and leaves of known servers makes of a new ring one that holds the virtual
    -- nodes of exactly its members, where no two virtual nodes of known servers have one hash.
    pub ring_of-Represents :
        (log : List Change)
        → All (λ c. known (server_of c) ≡ true) log
        → Represents hash replicas known (members log) (ring_of hash replicas log)
    unfolding ring_of members
    ring_of-Represents [] a = new-Represents
    ring_of-Represents (joins s ∷ log) a =
        add-Represents hash replicas known (members log) free some_replica
          (ring_of hash replicas log) (ring_of-Represents log a.1) s a.0
    ring_of-Represents (leaves s ∷ log) a =
        remove-Represents hash replicas known (members log) free some_replica
          (ring_of hash replicas log) (ring_of-Represents log a.1) s a.0

    -- A ring that holds some server sends every key to a server that it holds.
    pub Represents-live :
        (alive : Text → Bool) (r : Ring) (key s : Text)
        → Represents hash replicas known alive r
        → alive s ≡ true
        → alive (get hash key r) ≡ true
    Represents-live alive r key s v a = elim (get_cases hash key r v.valid.sorted) [
      | inl (empty, g) ↦ absurd (
          ground (
            arith,
            v.valid.matched (hash (s ++ codes "#0")),
            v.complete _ s a (first_hash hash s replicas some_replica),
            ap (λ ns. contains ns (hash (s ++ codes "#0"))) empty,
          ))
      | inr (n, c, g) ↦ elim (Option-cases (lookup ℕ_discrete n r.registry)) [
        | inl e ↦ absurd (ground (arith, v.valid.matched n, c.member, e))
        | inr (t, e) ↦ ap alive (g ∙ registered_of_some n r e) ∙ (v.sound n t e).0
      ]
    ]

    same-entries :
        (alive alive' : Text → Bool) (q r : Ring) (n : ℕ)
        → Represents hash replicas known alive q
        → Represents hash replicas known alive' r
        → ((s : Text) → alive s ≡ alive' s)
        → lookup ℕ_discrete n q.registry ≡ lookup ℕ_discrete n r.registry
    same-entries alive alive' q r n v w same =
        elim (Option-cases (lookup ℕ_discrete n q.registry)) [
          | inr (s, e) ↦ let (a, o) = v.sound n s e in e ∙ sym (w.complete n s (sym (same s) ∙ a) o)
          | inl e ↦ elim (Option-cases (lookup ℕ_discrete n r.registry)) [
            | inl e' ↦ e ∙ sym e'
            | inr (s, e') ↦
                let (a, o) = w.sound n s e' in
                absurd (ground (arith, v.complete n s (same s ∙ a) o, e))
          ]
        ]

    pub Represents-agree :
        (alive alive' : Text → Bool) (q r : Ring) (key : Text)
        → Represents hash replicas known alive q
        → Represents hash replicas known alive' r
        → ((s : Text) → alive s ≡ alive' s)
        → get hash key q ≡ get hash key r
    Represents-agree alive alive' q r key v w same =
        get-ext hash key q r v.valid.sorted w.valid.sorted
          (λ n.
            v.valid.matched n
            ∙ ap is_some (same-entries alive alive' q r n v w same)
            ∙ sym (w.valid.matched n))
          (λ n. same-entries alive alive' q r n v w same)

    -- Two servers that have heard of joins and leaves of known servers, in any order and as often,
    -- route every key alike if they agree on who is a member; and where some server is a member,
    -- every key goes to a member.
    pub routing_agrees :
        (key s : Text) (log log' : List Change)
        → All (λ c. known (server_of c) ≡ true) log
        → All (λ c. known (server_of c) ≡ true) log'
        → ((t : Text) → members log t ≡ members log' t)
        → members log s ≡ true
        → (get hash key (ring_of hash replicas log) ≡ get hash key (ring_of hash replicas log'))
          × (members log (get hash key (ring_of hash replicas log)) ≡ true)
    routing_agrees key s log log' a a' same m =
        let v = ring_of-Represents log a in
        (
          Represents-agree (members log) (members log') _ _ key v (ring_of-Represents log' a') same,
          Represents-live (members log) _ key s v m,
        )
