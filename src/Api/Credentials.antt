-- ===== src/Api/Credentials.antt =====
-- internal/auth/jwt.go and internal/auth/passwords.go, and `getIP` of internal/api/authHandler.go.
-- What they call of SHA-256, bcrypt, the JWT library and package net are the fields of `Crypto`.
use websocket_challenge.Base.{
  ℕ, ◌+◌, ◌-◌, Bool, false, Option, none, some, [], ◌∷◌, ◌++◌, ◌==◌, if◌then◌else◌, Text, codes,
}
use websocket_challenge.Repository.Tokens.{RefreshToken}

-- `CustomClaims`, without the constant issuer and the subject, which repeats the user's id.
pub record Claims : Type 0 where
  pub user_id : ℕ
  pub fingerprint : Text
  pub issued_at : ℕ
  pub expires_at : ℕ
  pub not_before : ℕ

-- `sha` is SHA-256 in hexadecimal, `verify` is `bcrypt.CompareHashAndPassword` without an error,
-- `sign` the signed token for claims, `validate` the claims of a token that is valid at a time,
-- `parse_ip` is `net.ParseIP`, and `scan_ip` what a stored address is read back as.
pub record Crypto : Type 0 where
  pub sha : Text → Text
  pub verify : Text → Text → Bool
  pub sign : Claims → Option Text
  pub validate : ℕ → Text → Option Claims
  pub parse_ip : Text → Option ℕ
  pub scan_ip : Option ℕ → Option ℕ

-- `strings.Split(forwarded, ",")[0]`
unfoldable pub before_comma : Text → Text
before_comma [] = []
before_comma (c ∷ s) = let rest = before_comma s in if c == 44 then [] else c ∷ rest

-- `host` is what `net.SplitHostPort` finds in `remote_addr`.
unfoldable pub get_ip : Text → Option Text → Text → Text
get_ip [] none remote_addr = remote_addr
get_ip [] (some host) remote_addr = host
get_ip (c ∷ s) host remote_addr = before_comma (c ∷ s)

module _ (x : Crypto) where
  unfoldable pub generate_fingerprint : Text → Text → Text
  generate_fingerprint ip ua = x.sha (ip ++ codes "|" ++ ua)

  -- Times are in seconds.
  unfoldable pub generate_token : ℕ → ℕ → Text → Text → Option Text
  unfolding generate_fingerprint
  generate_token now user_id user_agent ip_address = x.sign (record {
    user_id = user_id;
    fingerprint = generate_fingerprint ip_address user_agent;
    issued_at = now;
    expires_at = now + 900;
    not_before = now - 120;
  })

  -- `raw` is the random string, if the system's source of random bytes answers.
  unfoldable pub create_refresh_token :
      Option Text → ℕ → ℕ → Text → Text → Option (Text × RefreshToken)
  create_refresh_token none now user_id ip user_agent = none
  create_refresh_token (some raw) now user_id ip user_agent = some (
    raw,
    record {
      id = 0;
      user_id = user_id;
      token_hashed = x.sha raw;
      user_agent = user_agent;
      client_ip = x.parse_ip ip;
      is_revoked = false;
      expires_at = now + 604800;
      created_at = 0;
    },
  )

  unfoldable pub verify_password : Text → Text → Bool
  verify_password hashed_password password = x.verify hashed_password password
