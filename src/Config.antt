-- ===== src/Config.antt =====
-- internal/config/config.go. `env` is what `os.LookupEnv` answers once the .env file is loaded.
pub mod Masking
use websocket_challenge.Base.{
  ℕ, Bool, true, false, Option, none, some, List, [], ◌∷◌, ◌++◌, ◌==◌, ◌≟◌, if◌then◌else◌, Text,
  codes, length, ltb, get_or, split,
}

pub record Config : Type 0 where
  pub database_url : Text
  pub port : Text
  pub environment : Text
  pub auth_key : Text
  pub host : Text

unfoldable pub found_env : Option Text → Text → Text
found_env none default = default
found_env (some value) default = value

unfoldable pub get_env : (Text → Option Text) → Text → Text → Text
unfolding found_env
get_env env key default = found_env (env key) default

unfoldable pub mask_db_source : Text → Text
unfolding split
mask_db_source dsn =
    let parts = split 64 dsn in
    if ltb (length parts) 2
    then codes "invalid-dsn-format"
    else codes "postgres://****:****@" ++ get_or parts 1 []

-- What `Load` leaves: a configuration, with the masked address that it logs, or a process that
-- `log.Fatal` has ended.
unfoldable pub load : (Text → Option Text) → Option (Config × Text)
unfolding get_env mask_db_source
load env =
    let cfg : Config = record {
      database_url = get_env env (codes "DATABASE_URL") [];
      port = get_env env (codes "PORT") (codes "8080");
      environment = get_env env (codes "APP_ENV") (codes "development");
      auth_key = get_env env (codes "AUTH_KEY") [];
      host = get_env env (codes "HOST") (codes "localhost");
    } in
    if cfg.database_url ≟ []
    then none
    else if cfg.auth_key ≟ []
    then none
    else some (cfg, mask_db_source cfg.database_url)
