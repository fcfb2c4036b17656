-- ===== src/Hashing/Members.antt =====
-- A ring as a set of servers: what any sequence of `Add` and `Remove` makes of a new ring depends
-- only on which servers have joined last and not left.
pub mod Calls
pub mod Agreement
use websocket_challenge.Base.{
  ℕ, ◌≡◌, ◌≢◌, ◌<◌, ◌∙◌, ◌⊎◌, inl, inr, refl, sym, ap, subst, Bool, true, false, ◌||◌, Option, none,
  some, List, [], ◌∷◌, ◌++◌, arith, ◌==◌, ==_iff, if◌then◌else◌, Bool-cases, Option-cases, Text,
  ◌≟◌, codes, contains, IsNodup, ℕ_discrete, lookup, All,
}
use websocket_challenge.Hashing.Nodes.{Ring, new_consistent_hashing, add, get, remove, registered}
use websocket_challenge.Hashing.Changes.{replica_hashes, remove_replicas-registry}
use websocket_challenge.Hashing.Invariant.{
  IsRing, NoCollision, is_some, new_consistent_hashing-IsRing, add-IsRing, remove-IsRing,
  add-accepted, add-refused, remove-accepted, remove-refused,
}
use websocket_challenge.Hashing.Restore.{first_hash, add-replicas, remove-replicas, get-ext}
use websocket_challenge.Hashing.Routing.{get_cases, registered_of_some}
use websocket_challenge.Hashing.Lookup.{Clockwise, get_of_Clockwise}

-- A call of `Add` or of `Remove`.
pub data Change : Type 0 where
  joins leaves : Text → Change

abbrev pub server_of : Change → Text
server_of (joins s) = s
server_of (leaves s) = s

-- The abstract view: a server is a member if it joined after it last left.
unfoldable pub members : List Change → Text → Bool
members [] s = false
members (joins t ∷ log) s = s ≟ t || members log s
members (leaves t ∷ log) s = if s ≟ t then false else members log s

module _ (hash : Text → ℕ) where
  -- The calls on a new ring, the latest at the head.
  unfoldable pub ring_of : ℕ → List Change → Ring
  ring_of replicas [] = new_consistent_hashing replicas
  ring_of replicas (joins s ∷ log) = (add hash s (ring_of replicas log)).0
  ring_of replicas (leaves s ∷ log) = (remove hash s (ring_of replicas log)).0

  -- Whether a virtual node of the server stands at `n`.
  abbrev pub owns : ℕ → Text → ℕ → Bool
  owns replicas s n = contains (replica_hashes hash s 0 replicas) n

  -- Servers of which no two virtual nodes, of one or of two servers, have one hash.
  pub record CollisionFree (replicas : ℕ) (known : Text → Bool) : Type 0 where
    pub distinct : (s : Text) → known s ≡ true → IsNodup (replica_hashes hash s 0 replicas)
    pub apart :
        (s t : Text) (n : ℕ)
        → known s ≡ true
        → known t ≡ true
        → owns replicas s n ≡ true
        → owns replicas t n ≡ true
        → s ≡ t

  -- The ring holds the virtual nodes of exactly these servers.
  pub record Represents (replicas : ℕ) (known alive : Text → Bool) (r : Ring) : Type 0 where
    pub valid : IsRing r
    pub count : r.replicas ≡ replicas
    pub all_known : (s : Text) → alive s ≡ true → known s ≡ true
    pub sound :
        (n : ℕ) (s : Text)
        → lookup ℕ_discrete n r.registry ≡ some s
        → (alive s ≡ true) × (owns replicas s n ≡ true)
    pub complete :
        (n : ℕ) (s : Text)
        → alive s ≡ true
        → owns replicas s n ≡ true
        → lookup ℕ_discrete n r.registry ≡ some s
