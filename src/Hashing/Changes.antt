-- ===== src/Hashing/Changes.antt =====
-- What `Add` and `Remove` change: the nodes and entries of one server, at its replica hashes.
use websocket_challenge.Base.{
  IsNodup, contains-append, ℕ, zero, suc, ◌≡◌, ◌∙◌, ◌≢◌, refl, true, false, ◌||◌, none, some, List,
  [], ◌∷◌, ◌++◌, arith, ==_iff, if◌then◌else◌, Text, Bool-cases, ℕ_discrete, lookup, insert, erase,
  lookup-insert, lookup-erase,
}
use websocket_challenge.Hashing.Sorting.{contains, IsSorted, IsBelow}
use websocket_challenge.Hashing.Nodes.{Ring, identity, remove_first, add_replicas, remove_replicas}

pub contains-remove_first_ne :
    (h : ℕ) (xs : List ℕ) (n : ℕ) → n ≢ h → contains (remove_first h xs) n ≡ contains xs n
unfolding remove_first
contains-remove_first_ne h [] n ne = refl
contains-remove_first_ne h (x ∷ xs) n ne = ground (arith, contains-remove_first_ne h xs n ne)

pub contains_of_remove_first :
    (h : ℕ) (xs : List ℕ) (n : ℕ) → contains (remove_first h xs) n ≡ true → contains xs n ≡ true
unfolding remove_first
contains_of_remove_first h [] n m = m
contains_of_remove_first h (x ∷ xs) n m = ground (arith, contains_of_remove_first h xs n)

pub contains-remove_first_self :
    (h : ℕ) (xs : List ℕ) → IsNodup xs → contains (remove_first h xs) h ≡ false
unfolding remove_first
contains-remove_first_self h [] u = refl
contains-remove_first_self h (x ∷ xs) u =
    ground (arith, ==_iff x h, contains-remove_first_self h xs u.1)

IsBelow-remove_first : (y h : ℕ) (xs : List ℕ) → IsBelow y xs → IsBelow y (remove_first h xs)
unfolding remove_first
IsBelow-remove_first y h [] b = tt
IsBelow-remove_first y h (x ∷ xs) b = ground (arith, IsBelow-remove_first y h xs b.1)

pub remove_first-IsSorted : (h : ℕ) (xs : List ℕ) → IsSorted xs → IsSorted (remove_first h xs)
unfolding remove_first
remove_first-IsSorted h [] s = tt
remove_first-IsSorted h (x ∷ xs) s =
    ground (arith, remove_first-IsSorted h xs s.1, IsBelow-remove_first x h xs s.0)

pub remove_first-IsNodup : (h : ℕ) (xs : List ℕ) → IsNodup xs → IsNodup (remove_first h xs)
unfolding remove_first
remove_first-IsNodup h [] u = tt
remove_first-IsNodup h (x ∷ xs) u = ground (
  arith,
  remove_first-IsNodup h xs u.1,
  contains_of_remove_first h xs x,
  Bool-cases (contains (remove_first h xs) x),
)

module _ (hash : Text → ℕ) where
  -- The hashes of a server's virtual nodes, from replica `i` on.
  unfoldable pub replica_hashes : Text → ℕ → ℕ → List ℕ
  replica_hashes node i zero = []
  replica_hashes node i (suc rounds) = hash (identity node i) ∷ replica_hashes node (suc i) rounds

  pub add_replicas-nodes :
      (node : Text) (i rounds : ℕ) (r : Ring) (n : ℕ)
      → contains (add_replicas hash node i rounds r).nodes n
        ≡ (contains r.nodes n || contains (replica_hashes node i rounds) n)
  unfolding add_replicas replica_hashes
  add_replicas-nodes node i zero r n = ground arith
  add_replicas-nodes node i (suc rounds) r n =
      let h = hash (identity node i) in
      let r' : Ring = record r {
        registry = insert ℕ_discrete h node r.registry;
        nodes = r.nodes ++ h ∷ [];
      } in
      ground
        (arith, add_replicas-nodes node (suc i) rounds r' n, contains-append r.nodes (h ∷ []) n)

  pub add_replicas-registry :
      (node : Text) (i rounds : ℕ) (r : Ring) (n : ℕ)
      → lookup ℕ_discrete n (add_replicas hash node i rounds r).registry ≡ (
          if contains (replica_hashes node i rounds) n
          then some node
          else lookup ℕ_discrete n r.registry)
  unfolding add_replicas replica_hashes
  add_replicas-registry node i zero r n = refl
  add_replicas-registry node i (suc rounds) r n =
      let h = hash (identity node i) in
      let r' : Ring = record r {
        registry = insert ℕ_discrete h node r.registry;
        nodes = r.nodes ++ h ∷ [];
      } in
      ground (
        arith,
        add_replicas-registry node (suc i) rounds r' n,
        lookup-insert ℕ_discrete n h node r.registry,
      )

  pub remove_replicas-kept :
      (node : Text) (i rounds : ℕ) (r : Ring) (n : ℕ)
      → contains (replica_hashes node i rounds) n ≡ false
      → contains (remove_replicas hash node i rounds r).nodes n ≡ contains r.nodes n
  unfolding remove_replicas replica_hashes
  remove_replicas-kept node i zero r n f = refl
  remove_replicas-kept node i (suc rounds) r n f =
      let h = hash (identity node i) in
      let r' : Ring = record r {
        registry = erase ℕ_discrete h r.registry;
        nodes = remove_first h r.nodes;
      } in
      remove_replicas-kept node (suc i) rounds r' n (ground arith)
      ∙ contains-remove_first_ne h r.nodes n (ground (arith, ==_iff n h))

  pub remove_replicas-subset :
      (node : Text) (i rounds : ℕ) (r : Ring) (n : ℕ)
      → contains (remove_replicas hash node i rounds r).nodes n ≡ true
      → contains r.nodes n ≡ true
  unfolding remove_replicas
  remove_replicas-subset node i zero r n m = m
  remove_replicas-subset node i (suc rounds) r n m =
      let h = hash (identity node i) in
      let r' : Ring = record r {
        registry = erase ℕ_discrete h r.registry;
        nodes = remove_first h r.nodes;
      } in
      contains_of_remove_first h r.nodes n (remove_replicas-subset node (suc i) rounds r' n m)

  pub remove_replicas-registry :
      (node : Text) (i rounds : ℕ) (r : Ring) (n : ℕ)
      → lookup ℕ_discrete n (remove_replicas hash node i rounds r).registry ≡ (
          if contains (replica_hashes node i rounds) n
          then none
          else lookup ℕ_discrete n r.registry)
  unfolding remove_replicas replica_hashes
  remove_replicas-registry node i zero r n = refl
  remove_replicas-registry node i (suc rounds) r n =
      let h = hash (identity node i) in
      let r' : Ring = record r {
        registry = erase ℕ_discrete h r.registry;
        nodes = remove_first h r.nodes;
      } in
      ground (
        arith,
        remove_replicas-registry node (suc i) rounds r' n,
        lookup-erase ℕ_discrete n h r.registry,
      )

  pub remove_replicas-IsSorted :
      (node : Text) (i rounds : ℕ) (r : Ring)
      → IsSorted r.nodes
      → IsSorted (remove_replicas hash node i rounds r).nodes
  unfolding remove_replicas
  remove_replicas-IsSorted node i zero r s = s
  remove_replicas-IsSorted node i (suc rounds) r s =
      remove_replicas-IsSorted node (suc i) rounds _
        (remove_first-IsSorted (hash (identity node i)) r.nodes s)

  pub remove_replicas-IsNodup :
      (node : Text) (i rounds : ℕ) (r : Ring)
      → IsNodup r.nodes
      → IsNodup (remove_replicas hash node i rounds r).nodes
  unfolding remove_replicas
  remove_replicas-IsNodup node i zero r u = u
  remove_replicas-IsNodup node i (suc rounds) r u =
      remove_replicas-IsNodup node (suc i) rounds _
        (remove_first-IsNodup (hash (identity node i)) r.nodes u)

  pub remove_replicas-gone :
      (node : Text) (i rounds : ℕ) (r : Ring) (n : ℕ)
      → IsNodup r.nodes
      → contains (replica_hashes node i rounds) n ≡ true
      → contains (remove_replicas hash node i rounds r).nodes n ≡ false
  unfolding remove_replicas replica_hashes
  remove_replicas-gone node i zero r n u m = cc
  remove_replicas-gone node i (suc rounds) r n u m =
      let h = hash (identity node i) in
      let r' : Ring = record r {
        registry = erase ℕ_discrete h r.registry;
        nodes = remove_first h r.nodes;
      } in
      ground (
        arith,
        remove_replicas-gone node (suc i) rounds r' n (remove_first-IsNodup h r.nodes u),
        contains-remove_first_self h r.nodes u,
        remove_replicas-subset node (suc i) rounds r' n,
        ==_iff n h,
        Bool-cases (contains (remove_replicas hash node (suc i) rounds r').nodes n),
      )
