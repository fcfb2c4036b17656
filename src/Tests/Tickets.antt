-- ===== src/Tests/Tickets.antt =====
-- A token from its making to the request that it lets pass, under a simple library.
use websocket_challenge.Base.{
  ℕ, ◌≡◌, refl, sym, Bool, true, false, ◌&&◌, Option, none, some, [], ◌∷◌, arith, leb, ltb, le→leb,
  lt→ltb, Text, codes, ◌≟◌, text_dec,
}
use websocket_challenge.Config.{load, get_env, found_env}
use websocket_challenge.Repository.Users.{User, find_user, found_user, get_user_by_id}
use websocket_challenge.Api.{
  Crypto, Claims, Request, World, authenticate, generate_token, generate_fingerprint,
}
use websocket_challenge.Api.Tokens.{
  hmac, Jwt, IsJwt, get_jwt_key, sign_with, with_jwt, generate_token-authenticate,
}

abbrev when_keyed : Option Text → ℕ → Text → Option (Claims × Bool)
when_keyed (some key) now (user_id ∷ issued_at ∷ expires_at ∷ not_before ∷ fingerprint) = some (
  record {
    user_id = user_id;
    fingerprint = fingerprint;
    issued_at = issued_at;
    expires_at = expires_at;
    not_before = not_before;
  },
  leb not_before now && ltb now expires_at,
)
when_keyed _ now s = none

-- A token that lists its claims and no signature.
abbrev plain : Jwt
plain = record {
  sign = λ key c. some (c.user_id ∷ c.issued_at ∷ c.expires_at ∷ c.not_before ∷ c.fingerprint);
  parse = λ now keys token. when_keyed (keys hmac) now token;
}

some-injective : (s t : Text) → some s ≡ some t → s ≡ t
some-injective s t e = cc

plain-IsJwt : IsJwt plain
plain-IsJwt = record {
  reads = λ key token c now keys s k from until.
      rw (k, sym (some-injective _ token s), le→leb _ _ from, lt→ltb _ _ until) refl;
}

abbrev machine : Text → Option Text
machine key = some (codes "secret")

abbrev toy : Crypto
toy = record {
  sha = λ s. s;
  verify = λ h p. h ≟ p;
  sign = λ c. none;
  validate = λ now s. none;
  parse_ip = λ s. none;
  scan_ip = λ o. o;
}

abbrev ann : User
ann = record {
  id = 1;
  username = codes "ann";
  password_hash = codes "secret";
  email = codes "a@b.c";
  created_at = 0;
  updated_at = 0;
  is_banned = false;
}

abbrev ticket : Text
ticket = 1 ∷ 500 ∷ 1400 ∷ 380 ∷ codes "::1|Mozilla"

abbrev visit : Request
visit = record {
  access_cookie = some ticket;
  refresh_cookie = none;
  user_agent = codes "Mozilla";
  ip = codes "::1";
}

abbrev later : World
later = record {
  now = 1399;
  raw = none;
  new_id = 0;
  known = true;
  user_fault = none;
  lookup_up = true;
  revoke_up = true;
  save_up = true;
}

generate_token-authenticate_example :
    authenticate
      (with_jwt plain (λ key. none) (get_jwt_key machine none) toy)
      later
      visit
      (ann ∷ [])
    ≡ record { status = 0; cookies = []; user = some ann }
unfolding with_jwt generate_token generate_fingerprint sign_with get_jwt_key load get_env found_env
    get_user_by_id find_user found_user text_dec
generate_token-authenticate_example =
    generate_token-authenticate plain toy machine (λ key. none) 500 ticket later visit (ann ∷ [])
      ann plain-IsJwt refl refl (omega arith) (omega arith) refl refl
