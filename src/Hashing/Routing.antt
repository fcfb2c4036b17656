-- ===== src/Hashing/Routing.antt =====
-- Consistent hashing: a change of one server moves no key between the other servers.
use websocket_challenge.Base.{
  ℕ, ◌≡◌, ◌∙◌, ◌⊎◌, ◌≢◌, inl, inr, refl, ap, sym, true, none, some, List, [], ◌∷◌, ◌++◌, arith,
  ==_iff, Text, codes, Bool-cases, Option-cases, ℕ_discrete, lookup,
}
use websocket_challenge.Hashing.Sorting.{contains, IsSorted}
use websocket_challenge.Hashing.Nodes.{Ring, registered, add, get, remove, remove_replicas}
use websocket_challenge.Hashing.Lookup.{
  Clockwise, Clockwise-subset, get_empty, get-Clockwise, get_of_Clockwise,
}
use websocket_challenge.Hashing.Changes.{
  replica_hashes, remove_replicas-kept, remove_replicas-registry, remove_replicas-subset,
  remove_replicas-IsSorted,
}
use websocket_challenge.Hashing.Invariant.{
  add-accepted, add-refused, add-IsSorted, remove-accepted, remove-refused,
}

pub registered_of_eq :
    (n : ℕ) (q r : Ring)
    → lookup ℕ_discrete n q.registry ≡ lookup ℕ_discrete n r.registry
    → registered n q.registry ≡ registered n r.registry
unfolding registered
registered_of_eq n q r e = rw (e, registered)

pub registered_of_some :
    (n : ℕ) (r : Ring) {s : Text}
    → lookup ℕ_discrete n r.registry ≡ some s
    → registered n r.registry ≡ s
unfolding registered
registered_of_some n r e = rw (e, registered)

-- A ring is empty, or `Get` goes by the node nearest clockwise.
pub get_cases :
    (hash : Text → ℕ) (key : Text) (r : Ring)
    → IsSorted r.nodes
    → ((r.nodes ≡ []) × (get hash key r ≡ []))
      ⊎ ((n : ℕ) × Clockwise (hash key) r.nodes n × (get hash key r ≡ registered n r.registry))
get_cases hash key r s = go r.nodes refl
  where
    go :
        (ns : List ℕ)
        → r.nodes ≡ ns
        → ((r.nodes ≡ []) × (get hash key r ≡ []))
          ⊎ ((n : ℕ) × Clockwise (hash key) r.nodes n × (get hash key r ≡ registered n r.registry))
    go [] e = inl (e, get_empty hash key r e)
    go (x ∷ xs) e = let (c, g) = get-Clockwise hash key r s (rw e (omega arith)) in inr (_, c, g)

module _ (hash : Text → ℕ) (node key : Text) (r : Ring) where
  abbrev own : List ℕ
  own = replica_hashes hash node 0 r.replicas

  -- After `Add node`, every key goes to the new server or to the server that it went to before,
  -- whatever the hashes are.
  pub get-add :
      IsSorted r.nodes
      → (get hash key (add hash node r).0 ≡ node)
        ⊎ (get hash key (add hash node r).0 ≡ get hash key r)
  get-add s = elim (Option-cases (lookup ℕ_discrete (hash (node ++ codes "#0")) r.registry)) [
    | inr (t, e) ↦ inr (rw (add-refused hash node r e))
    | inl e ↦ moved e (get_cases hash key (add hash node r).0 (add-IsSorted hash node r s))
  ]
    where
      q : Ring
      q = (add hash node r).0

      at_node :
          lookup ℕ_discrete (hash (node ++ codes "#0")) r.registry ≡ none
          → (n : ℕ) → Clockwise (hash key) q.nodes n
          → get hash key q ≡ registered n q.registry
          → (get hash key q ≡ node) ⊎ (get hash key q ≡ get hash key r)
      at_node e n c g =
          let (nodes_at, entry_at, _) = add-accepted hash node r n e in
          elim (Bool-cases (contains own n)) [
            | inl mine ↦ inl (g ∙ registered_of_some n q (ground arith))
            | inr other ↦ inr (
                g
                ∙ registered_of_eq n q r (ground arith)
                ∙ sym (
                    get_of_Clockwise hash key r n s (
                      Clockwise-subset (hash key) q.nodes r.nodes n
                        (λ m i. ground (arith, add-accepted hash node r m e))
                        (ground (arith, c.member)) c)))
          ]

      moved :
          lookup ℕ_discrete (hash (node ++ codes "#0")) r.registry ≡ none
          → ((q.nodes ≡ []) × (get hash key q ≡ []))
            ⊎ ((n : ℕ) × Clockwise (hash key) q.nodes n
                × (get hash key q ≡ registered n q.registry))
          → (get hash key q ≡ node) ⊎ (get hash key q ≡ get hash key r)
      moved e (inr (n, c, g)) = at_node e n c g
      moved e (inl (empty, g)) = inr (g ∙ sym (nothing (get_cases hash key r s)))
        where
          nothing :
              ((r.nodes ≡ []) × (get hash key r ≡ []))
                ⊎ ((n : ℕ) × Clockwise (hash key) r.nodes n
                    × (get hash key r ≡ registered n r.registry))
              → get hash key r ≡ []
          nothing (inl (_, h)) = h
          nothing (inr (n, c, h)) = absurd (
              ground
                (arith, (add-accepted hash node r n e).0, c.member, ap (λ ns. contains ns n) empty))

  -- While all of a server's hashes are registered to it, removing the server moves no key of
  -- another server.
  pub get-remove_other :
      IsSorted r.nodes
      → ((n : ℕ) → contains own n ≡ true → lookup ℕ_discrete n r.registry ≡ some node)
      → get hash key r ≢ node
      → get hash key (remove hash node r).0 ≡ get hash key r
  get-remove_other s full ne =
      elim (Option-cases (lookup ℕ_discrete (hash (node ++ codes "#0")) r.registry)) [
        | inl e ↦ rw (remove-refused hash node r e)
        | inr (t, e) ↦ rw (remove-accepted hash node r e) (kept (get_cases hash key r s))
      ]
    where
      q : Ring
      q = remove_replicas hash node 0 r.replicas r

      sub : (m : ℕ) → contains q.nodes m ≡ true → contains r.nodes m ≡ true
      sub m = remove_replicas-subset hash node 0 r.replicas r m

      kept :
          ((r.nodes ≡ []) × (get hash key r ≡ []))
            ⊎ ((n : ℕ) × Clockwise (hash key) r.nodes n
                × (get hash key r ≡ registered n r.registry))
          → get hash key q ≡ get hash key r
      kept (inl (empty, g)) =
          get_empty hash key q
            (nil_of q.nodes (λ m i. ground (arith, sub m i, ap (λ ns. contains ns m) empty)))
          ∙ sym g
        where
          nil_of : (ns : List ℕ) → ((m : ℕ) → contains ns m ≡ true → ⊥) → ns ≡ []
          nil_of [] h = refl
          nil_of (x ∷ xs) h = absurd (h x (ground (arith, ==_iff x x)))
      kept (inr (n, c, g)) = elim (Bool-cases (contains own n)) [
        | inl mine ↦ absurd (ne (g ∙ registered_of_some n r (full n mine)))
        | inr other ↦
            get_of_Clockwise hash key q n (remove_replicas-IsSorted hash node 0 r.replicas r s) (
              Clockwise-subset (hash key) r.nodes q.nodes n sub
                (remove_replicas-kept hash node 0 r.replicas r n other ∙ c.member) c)
            ∙ registered_of_eq n q r
                (ground (arith, remove_replicas-registry hash node 0 r.replicas r n))
            ∙ sym g
      ]
