-- ===== src/Tests/Rings.antt =====
-- A ring of two servers with two virtual nodes each, under a small hash.
use websocket_challenge.Base.{
  List, Bool, ◌||◌, ◌≟◌, inl, inr, ℕ, ◌+◌, ◌*◌, ◌%◌, ◌≡◌, ◌⊎◌, refl, sym, ◌∙◌, true, [], ◌∷◌, arith,
  Text, codes, itoa, lookup, insert, text_dec, ℕ_discrete, contains,
}
use websocket_challenge.Hashing.{
  Ring, new_consistent_hashing, identity, registered, sort, search_index, add, get,
}
use websocket_challenge.Hashing.Members.{
  Change, joins, leaves, members, ring_of, owns, CollisionFree, Represents,
}
use websocket_challenge.Hashing.Members.Agreement.{ring_of-Represents, routing_agrees}
use websocket_challenge.Hashing.Lookup.{Clockwise, chosen, get-Clockwise}
use websocket_challenge.Hashing.Changes.{replica_hashes}
use websocket_challenge.Hashing.Invariant.{
  IsRing, NoCollision, new_consistent_hashing-IsRing, add-IsRing,
}
use websocket_challenge.Hashing.Routing.{get-add}

abbrev weigh : Text → ℕ
weigh [] = 7
weigh (c ∷ s) = (weigh s * 31 + c * 7919) % 65536

abbrev one_server : Ring
unfolding add new_consistent_hashing
one_server = (add weigh (codes "b:1") (new_consistent_hashing 2)).0

abbrev two_servers : Ring
unfolding one_server
two_servers = (add weigh (codes "a:1") one_server).0

ring_runs :
    (get weigh (codes "ann") two_servers ≡ codes "a:1")
    × (get weigh (codes "dan") two_servers ≡ codes "b:1")
unfolding two_servers get add new_consistent_hashing identity itoa sort lookup insert text_dec
    ℕ_discrete search_index registered
ring_runs = (refl, refl)

one_server-nodes : one_server.nodes ≡ 3443 ∷ 7394 ∷ []
unfolding one_server add new_consistent_hashing identity itoa sort lookup insert ℕ_discrete
one_server-nodes = refl

b_hashes : replica_hashes weigh (codes "b:1") 0 2 ≡ 3443 ∷ 7394 ∷ []
unfolding replica_hashes identity itoa
b_hashes = refl

a_hashes : replica_hashes weigh (codes "a:1") 0 2 ≡ 61060 ∷ 65011 ∷ []
unfolding replica_hashes identity itoa
a_hashes = refl

b-NoCollision : NoCollision weigh (codes "b:1") (new_consistent_hashing 2)
unfolding new_consistent_hashing replica_hashes identity itoa
b-NoCollision = record { distinct = (refl, (refl, tt)); fresh = λ n m. refl }

one_server-IsRing : IsRing one_server
unfolding one_server
one_server-IsRing =
    add-IsRing weigh (codes "b:1") (new_consistent_hashing 2) (new_consistent_hashing-IsRing 2)
      b-NoCollision

get-Clockwise_example :
    Clockwise (weigh (codes "ann")) one_server.nodes (chosen (weigh (codes "ann")) one_server.nodes)
    × (get weigh (codes "ann") one_server
        ≡ registered (chosen (weigh (codes "ann")) one_server.nodes) one_server.registry)
unfolding one_server add new_consistent_hashing identity itoa sort lookup insert ℕ_discrete
get-Clockwise_example =
    get-Clockwise weigh (codes "ann") one_server one_server-IsRing.sorted (omega arith)

get-add_example :
    (get weigh (codes "ann") (add weigh (codes "a:1") one_server).0 ≡ codes "a:1")
    ⊎ (get weigh (codes "ann") (add weigh (codes "a:1") one_server).0
        ≡ get weigh (codes "ann") one_server)
get-add_example = get-add weigh (codes "a:1") (codes "ann") one_server one_server-IsRing.sorted

abbrev code_of : Text → ℕ
code_of [] = 0
code_of (c ∷ s) = c

abbrev known : Text → Bool
known s = s ≟ codes "a:1" || s ≟ codes "b:1"

known-cases : (s : Text) → known s ≡ true → (s ≡ codes "a:1") ⊎ (s ≡ codes "b:1")
known-cases s k = ground (arith, k)

at_a : (s : Text) (n : ℕ) → s ≡ codes "a:1" → owns weigh 2 s n ≡ contains (61060 ∷ 65011 ∷ []) n
at_a s n e = rw (e, a_hashes) refl

at_b : (s : Text) (n : ℕ) → s ≡ codes "b:1" → owns weigh 2 s n ≡ contains (3443 ∷ 7394 ∷ []) n
at_b s n e = rw (e, b_hashes) refl

two-CollisionFree : CollisionFree weigh 2 known
two-CollisionFree = record {
  distinct = λ s k. elim (known-cases s k) [
    | inl e ↦ rw (e, a_hashes) (refl, (refl, tt))
    | inr e ↦ rw (e, b_hashes) (refl, (refl, tt))
  ];
  apart = λ s t n k l o p. elim (known-cases s k) [
    | inl e ↦ elim (known-cases t l) [
      | inl f ↦ e ∙ sym f
      | inr f ↦ absurd (ground (arith, at_a s n e, at_b t n f, o, p))
    ]
    | inr e ↦ elim (known-cases t l) [
      | inl f ↦ absurd (ground (arith, at_b s n e, at_a t n f, o, p))
      | inr f ↦ e ∙ sym f
    ]
  ];
}

abbrev log : List Change
log = leaves (codes "a:1") ∷ joins (codes "b:1") ∷ joins (codes "a:1") ∷ []

abbrev short_log : List Change
short_log = joins (codes "b:1") ∷ []

ring_of-Represents_example : Represents weigh 2 known (members log) (ring_of weigh 2 log)
unfolding text_dec
ring_of-Represents_example =
    ring_of-Represents weigh 2 known two-CollisionFree (omega arith) log (refl, (refl, (refl, tt)))

logs-agree : (t : Text) → members log t ≡ members short_log t
unfolding members
logs-agree t = ground arith

routing_agrees_example :
    (get weigh (codes "ann") (ring_of weigh 2 log)
      ≡ get weigh (codes "ann") (ring_of weigh 2 short_log))
    × (members log (get weigh (codes "ann") (ring_of weigh 2 log)) ≡ true)
unfolding text_dec members
routing_agrees_example =
    routing_agrees weigh 2 known two-CollisionFree (omega arith) (codes "ann") (codes "b:1") log
      short_log (refl, (refl, (refl, tt))) (refl, tt) logs-agree refl
