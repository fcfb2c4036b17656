-- ===== src/Server/Startup.antt =====
-- `main` of cmd/server/main.go up to the call of `NewHub`, with `Connect` of internal/db/db.go.
use websocket_challenge.Base.{
  ℕ, lookup, ◌<◌, ◌⊎◌, contains, ◌≡◌, ◌∙◌, refl, Bool, true, false, Option, none, some, [], ◌++◌,
  arith, if◌then◌else◌, Text, ◌≟◌, codes, not, ◌&&◌, Bool-cases, inl, inr, ap,
}
use websocket_challenge.Hashing.{Ring, new_consistent_hashing, add, get}
use websocket_challenge.Hashing.Restore.{first_hash}
use websocket_challenge.Hashing.Invariant.{add-accepted, add-IsSorted}
use websocket_challenge.Hashing.Routing.{get_cases, registered_of_some}
use websocket_challenge.Config.{Config, get_env, found_env, load}
use websocket_challenge.Chat.Hub.{Client, Hub, announce_server_add}
use websocket_challenge.Chat.Hub.Runs.{new_hub}
use websocket_challenge.Chat.Hub.Home.{start_hub}

-- What the libraries answer: the environment, whether pgxpool takes the address of the database,
-- makes a pool and reaches the database, and whether Redis answers the pings of `main` and of
-- `NewHub`.
pub record Surroundings : Type 0 where
  pub env : Text → Option Text
  pub parses : Text → Bool
  pub pools : Text → Bool
  pub database_up : Text → Bool
  pub redis_up : Bool
  pub redis_online : Bool

-- `db.Connect`: whether there is a pool.
unfoldable pub connect : Surroundings → Text → Bool
connect w database_url =
    if w.parses database_url
    then if w.pools database_url then w.database_up database_url else false
    else false

-- `if port == "" { port = "8080" }`
abbrev pub or_default : Text → Text → Text
or_default value default = if value ≟ [] then default else value

unfoldable pub public_addr : Config → Text
public_addr cfg =
    or_default cfg.host (codes "localhost") ++ codes ":" ++ or_default cfg.port (codes "8080")

module _ (hash : Text → ℕ) (client : ℕ → Client) where
  -- The hub, and the address that `ListenAndServeTLS` gets.
  unfoldable pub launch : Surroundings → Config → Hub × Text
  unfolding public_addr
  launch w cfg = (
    start_hub hash (public_addr cfg) w.redis_online client,
    codes ":" ++ or_default cfg.port (codes "8080"),
  )

  -- The process ends where there is no configuration, no pool or no Redis.
  unfoldable pub proceed : Surroundings → Option (Config × Text) → Option (Hub × Text)
  unfolding connect launch
  proceed w none = none
  proceed w (some (cfg, masked)) =
      if connect w cfg.database_url then if w.redis_up then some (launch w cfg) else none else none

  unfoldable pub start_up : Surroundings → Option (Hub × Text)
  unfolding proceed
  start_up w = proceed w (load w.env)

-- What a variable of the environment is worth: an empty one counts as missing.
abbrev pub setting : Option Text → Text → Text
setting none default = default
setting (some value) default = or_default value default

-- The server can start.
abbrev pub is_ready : Surroundings → Bool
is_ready w =
    let url = setting (w.env (codes "DATABASE_URL")) [] in
    let key = setting (w.env (codes "AUTH_KEY")) [] in
    not (url ≟ [])
    && not (key ≟ [])
    && w.parses url
    && w.pools url
    && w.database_up url
    && w.redis_up

abbrev pub port_of : Surroundings → Text
port_of w = setting (w.env (codes "PORT")) (codes "8080")

abbrev pub name_of : Surroundings → Text
name_of w = setting (w.env (codes "HOST")) (codes "localhost") ++ codes ":" ++ port_of w

-- A server alone on its ring gets every key.
get-alone :
    (hash : Text → ℕ) (own key : Text) (replicas : ℕ)
    → 0 < replicas
    → get hash key (add hash own (new_consistent_hashing replicas)).0 ≡ own
unfolding new_consistent_hashing lookup
get-alone hash own key replicas pos =
    let r : Ring = record { nodes = []; registry = []; replicas = replicas } in
    let q = (add hash own r).0 in
    elim (get_cases hash key q (add-IsSorted hash own r tt)) [
      | inl (empty, g) ↦ absurd (
          ground (
            arith,
            ap (λ ns. contains ns (hash (own ++ codes "#0"))) empty,
            add-accepted hash own r (hash (own ++ codes "#0")) refl,
            first_hash hash own replicas pos,
          ))
      | inr (n, c, g) ↦
          g ∙ registered_of_some n q (ground (arith, add-accepted hash own r n refl, c.member))
    ]

found_env-setting :
    (o : Option Text) (default : Text)
    → or_default (found_env o default) default ≡ setting o default
unfolding found_env
found_env-setting none default = ground arith
found_env-setting (some value) default = refl

found_env-nil : (o : Option Text) → found_env o [] ≡ setting o []
unfolding found_env
found_env-nil none = refl
found_env-nil (some value) = ground arith

module _ (hash : Text → ℕ) (client : ℕ → Client) where
  start_up-cases :
      (w : Surroundings)
      → start_up hash client w ≡ (
          if is_ready w
          then some (start_hub hash (name_of w) w.redis_online client, codes ":" ++ port_of w)
          else none)
  unfolding start_up proceed launch connect public_addr load get_env
  start_up-cases w =
      let url = found_env-nil (w.env (codes "DATABASE_URL")) in
      let key = found_env-nil (w.env (codes "AUTH_KEY")) in
      elim (Bool-cases (setting (w.env (codes "DATABASE_URL")) [] ≟ [])) [
        | inl p ↦ ground (arith, url, p)
        | inr p ↦ elim (Bool-cases (setting (w.env (codes "AUTH_KEY")) [] ≟ [])) [
          | inl q ↦ ground (arith, url, p, key, q)
          | inr q ↦
              rw
                (
                  url,
                  p,
                  key,
                  q,
                  found_env-setting (w.env (codes "HOST")) (codes "localhost"),
                  found_env-setting (w.env (codes "PORT")) (codes "8080"),
                )
                (ground (arith, p, q))
        ]
      ]

  -- The server starts exactly where the environment names a database and a key for tokens, neither
  -- empty, the database is reached and Redis answers. Its name is then host and port, each with its
  -- default where the environment has it missing or empty; it listens on the port, and until
  -- another server joins, every key is its own.
  pub start_up-ready :
      (w : Surroundings)
      → ((is_ready w ≡ false) × (start_up hash client w ≡ none))
        ⊎ ((is_ready w ≡ true)
            × ((h : Hub) × (start_up hash client w ≡ some (h, codes ":" ++ port_of w))
                × (h.server_id ≡ name_of w)
                × (h.redis_online ≡ w.redis_online)
                × ((key : Text) → get hash key h.ring ≡ h.server_id)))
  unfolding start_hub new_hub announce_server_add
  start_up-ready w = elim (Bool-cases (is_ready w)) [
    | inr off ↦ inl (off, start_up-cases w ∙ rw off refl)
    | inl on ↦ inr (
      on,
      (
        start_hub hash (name_of w) w.redis_online client,
        start_up-cases w ∙ rw on refl,
        refl,
        refl,
        λ key. get-alone hash (name_of w) key 50 (omega arith),
      ),
    )
  ]
