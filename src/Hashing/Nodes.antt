-- ===== src/Hashing/Nodes.antt =====
-- The type `Ring` and its methods `Add`, `Get` and `Remove`.
use websocket_challenge.Base.{
  ℕ, zero, suc, Bool, true, false, none, some, List, [], ◌∷◌, ◌++◌, ℕ_discrete, leb, ◌==◌,
  if◌then◌else◌, length, get_or, Text, codes, itoa, Dict, lookup, insert, erase,
}
use websocket_challenge.Hashing.Sorting.{sort}
use websocket_challenge.Hashing.Search.{search_index}

-- `Nodes`, `Registry` and `Replicas`; the entries are values of `uint32`.
pub record Ring : Type 0 where
  pub nodes : List ℕ
  pub registry : Dict ℕ Text
  pub replicas : ℕ

-- `make` of each field, with the number of virtual nodes for a server.
unfoldable pub new_consistent_hashing : ℕ → Ring
new_consistent_hashing replicas = record { nodes = []; registry = []; replicas = replicas }

-- `node + "#" + strconv.Itoa(i)`
unfoldable pub identity : Text → ℕ → Text
identity node i = node ++ codes "#" ++ itoa i

-- `r.Registry[h]`, which is "" for a missing key.
unfoldable pub registered : ℕ → Dict ℕ Text → Text
registered h reg = elim (lookup ℕ_discrete h reg) [ none ↦ [] | some server ↦ server ]

-- The inner loop of `Remove`: the first entry that is `h` goes.
unfoldable pub remove_first : ℕ → List ℕ → List ℕ
remove_first h [] = []
remove_first h (x ∷ xs) = if x == h then xs else x ∷ remove_first h xs

module _ (hash : Text → ℕ) where
  -- The loop of `Add` from replica `i`, with the number of rounds that are left.
  unfoldable pub add_replicas : Text → ℕ → ℕ → Ring → Ring
  add_replicas node i zero r = r
  add_replicas node i (suc rounds) r =
      let h = hash (identity node i) in
      add_replicas node (suc i) rounds
        (record r { registry = insert ℕ_discrete h node r.registry; nodes = r.nodes ++ h ∷ [] })

  unfoldable pub add : Text → Ring → Ring × Bool
  unfolding add_replicas
  add node r = elim (lookup ℕ_discrete (hash (node ++ codes "#0")) r.registry) [
    | some _ ↦ (r, false)
    | none ↦
        let r' = add_replicas node 0 r.replicas r in (record r' { nodes = sort r'.nodes }, true)
  ]

  unfoldable pub get : Text → Ring → Text
  get key r =
      let user_hashed = hash key in
      let n = length r.nodes in
      let idx = search_index n (λ i. leb user_hashed (get_or r.nodes i 0)) in
      if n == 0 then [] else registered (get_or r.nodes (if idx == n then 0 else idx) 0) r.registry

  -- The outer loop of `Remove` from replica `i`.
  unfoldable pub remove_replicas : Text → ℕ → ℕ → Ring → Ring
  remove_replicas node i zero r = r
  remove_replicas node i (suc rounds) r =
      let h = hash (identity node i) in
      remove_replicas node (suc i) rounds
        (record r { registry = erase ℕ_discrete h r.registry; nodes = remove_first h r.nodes })

  unfoldable pub remove : Text → Ring → Ring × Bool
  unfolding remove_replicas
  remove node r = elim (lookup ℕ_discrete (hash (node ++ codes "#0")) r.registry) [
    | none ↦ (r, false)
    | some _ ↦ (remove_replicas node 0 r.replicas r, true)
  ]
