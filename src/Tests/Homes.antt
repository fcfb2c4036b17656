-- ===== src/Tests/Homes.antt =====
-- A server that hears another one join, under a hash without collisions between the two.
use websocket_challenge.Base.{
  ℕ, ◌+◌, ◌*◌, ◌%◌, ◌≡◌, ◌⊎◌, inl, inr, refl, sym, subst, ◌∙◌, Bool, true, if◌then◌else◌, false,
  ◌&&◌, ◌||◌, some, List, [], ◌∷◌, ◌++◌, ◌==◌, ==_iff, arith, Text, codes, contains, IsNodup, itoa,
  lookup, ◌≟◌, ℕ_discrete, text_dec,
}
use websocket_challenge.Hashing.{get, identity}
use websocket_challenge.Hashing.Changes.{replica_hashes}
use websocket_challenge.Hashing.Members.{owns, CollisionFree}
use websocket_challenge.Chat.Hub.{
  Client, Hub, announcement, join_prefix, server_joined, handle_signal, ok, act_on,
  announce_server_add,
}
use websocket_challenge.Chat.Hub.Runs.{new_hub, Reach, here, next, hears}
use websocket_challenge.Messages.{marshal, unmarshal}
use websocket_challenge.Chat.Hub.Home.{start_hub}
use websocket_challenge.Chat.Hub.Home.Reached.{server_stays_home}

-- The texts as numbers in base 128, the first code point in front.
abbrev number : Text → ℕ
number [] = 0
number (c ∷ s) = c + 128 * number s

abbrev known : Text → Bool
known s = s ≟ codes "a:1" || s ≟ codes "b:1"

known-cases : (s : Text) → known s ≡ true → (s ≡ codes "a:1") ⊎ (s ≡ codes "b:1")
known-cases s k = ground (arith, k)

abbrev is_distinct : List ℕ → Bool
is_distinct [] = true
is_distinct (x ∷ xs) = if contains xs x then false else is_distinct xs

is_distinct-IsNodup : (xs : List ℕ) → is_distinct xs ≡ true → IsNodup xs
is_distinct-IsNodup [] e = tt
is_distinct-IsNodup (x ∷ xs) e = (ground (arith, e), is_distinct-IsNodup xs (ground (arith, e)))

a_distinct : is_distinct (replica_hashes number (codes "a:1") 0 50) ≡ true
unfolding replica_hashes identity itoa
a_distinct = refl

b_distinct : is_distinct (replica_hashes number (codes "b:1") 0 50) ≡ true
unfolding replica_hashes identity itoa
b_distinct = refl

abbrev all_have : ℕ → List ℕ → Bool
all_have p [] = true
all_have p (x ∷ xs) = x % 2 == p && all_have p xs

parity_of_contains :
    (p n : ℕ) (xs : List ℕ) → all_have p xs ≡ true → contains xs n ≡ true → n % 2 ≡ p
parity_of_contains p n [] e c = cc
parity_of_contains p n (x ∷ xs) e c =
    ground (arith, parity_of_contains p n xs, ==_iff (x % 2) p, ==_iff x n, ==_iff n x)

a_parity : (n : ℕ) → owns number 50 (codes "a:1") n ≡ true → n % 2 ≡ 1
unfolding replica_hashes identity itoa
a_parity n o = parity_of_contains 1 n (replica_hashes number (codes "a:1") 0 50) refl o

b_parity : (n : ℕ) → owns number 50 (codes "b:1") n ≡ true → n % 2 ≡ 0
unfolding replica_hashes identity itoa
b_parity n o = parity_of_contains 0 n (replica_hashes number (codes "b:1") 0 50) refl o

parity_at : (s t : Text) (n : ℕ) → s ≡ t → owns number 50 s n ≡ true → owns number 50 t n ≡ true
parity_at s t n e o = subst (λ u. owns number 50 u n ≡ true) e o

two-CollisionFree_50 : CollisionFree number 50 known
two-CollisionFree_50 = record {
  distinct = λ s k. elim (known-cases s k) [
    | inl e ↦ rw e (is_distinct-IsNodup _ a_distinct)
    | inr e ↦ rw e (is_distinct-IsNodup _ b_distinct)
  ];
  apart = λ s t n k l o p. elim (known-cases s k) [
    | inl e ↦ elim (known-cases t l) [
      | inl f ↦ e ∙ sym f
      | inr f ↦
          absurd
            (ground (arith, a_parity n (parity_at s _ n e o), b_parity n (parity_at t _ n f p)))
    ]
    | inr e ↦ elim (known-cases t l) [
      | inl f ↦
          absurd
            (ground (arith, b_parity n (parity_at s _ n e o), a_parity n (parity_at t _ n f p)))
      | inr f ↦ e ∙ sym f
    ]
  ];
}

abbrev nobody : ℕ → Client
nobody c = record { name = []; room_id = []; send = []; closed = false }

abbrev alone : Hub
alone = start_hub number (codes "a:1") true nobody

abbrev both : Hub
both = server_joined number 5 (codes "b:1") alone

joins_in : handle_signal number 5 (some (announcement join_prefix (codes "b:1"))) alone ≡ ok both
unfolding start_hub new_hub announce_server_add handle_signal act_on announcement marshal unmarshal
    text_dec
joins_in = refl

two_steps : Reach number alone both
two_steps = next here (hears 5 (some (announcement join_prefix (codes "b:1"))) joins_in)

server_stays_home_example :
    (both.server_id ≡ codes "a:1")
    × (lookup ℕ_discrete (number (codes "a:1" ++ codes "#0")) both.ring.registry
        ≡ some (codes "a:1"))
    × (known (get number (codes "ann") both.ring) ≡ true)
unfolding announcement marshal unmarshal text_dec two_steps
server_stays_home_example =
    server_stays_home number known (codes "a:1") two-CollisionFree_50 true nobody (codes "ann") both
      refl two_steps (tt, (refl, tt))
