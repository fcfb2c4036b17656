-- ===== src/Api/Tokens.antt =====
-- `getJwtKey` and `ValidateToken` of internal/auth/jwt.go, over what they call of the JWT library.
use websocket_challenge.Base.{
  ℕ, ◌+◌, ◌-◌, ◌≤◌, ◌<◌, ◌≡◌, ◌∙◌, refl, ap, Bool, true, false, Option, none, some, [], arith,
  if◌then◌else◌, Text, inl,
}
use websocket_challenge.Config.{Config, load}
use websocket_challenge.Repository.Users.{User, UserTable, get_user_by_id}
use websocket_challenge.Api.Credentials.{Crypto, Claims, generate_token, generate_fingerprint}
use websocket_challenge.Api.Handlers.{
  World, Request, authenticate, check_cookie, check_claims, admit,
}

-- The type of `t.Method`.
pub data Method : Type 0 where
  hmac : Method
  other_method : Text → Method

-- `sign` is `SignedString` with HS256, and `parse` is `ParseWithClaims` at a time with a function
-- that answers with a key or an error; it returns the claims and `Valid`, or an error.
pub record Jwt : Type 0 where
  pub sign : Text → Claims → Option Text
  pub parse : ℕ → (Method → Option Text) → Text → Option (Claims × Bool)

-- What the library documents: a token that was signed with HS256 is valid under the same key from
-- its `nbf` on and before its `exp`.
pub record IsJwt (lib : Jwt) : Type 0 where
  pub reads :
      (key token : Text) (c : Claims) (now : ℕ) (keys : Method → Option Text)
      → lib.sign key c ≡ some token
      → keys hmac ≡ some key
      → c.not_before ≤ now
      → now < c.expires_at
      → lib.parse now keys token ≡ some (c, true)

abbrev pub auth_key_of : Option (Config × Text) → Option Text
auth_key_of none = none
auth_key_of (some (cfg, masked)) = some cfg.auth_key

-- `getJwtKey`: the cached key, or after the first call the one of the environment; `none` where
-- `config.Load` ends the process. The answer is also what the cache holds then.
unfoldable pub get_jwt_key : (Text → Option Text) → Option Text → Option Text
get_jwt_key env none = auth_key_of (load env)
get_jwt_key env (some key) = some key

-- The function that `ValidateToken` gives to the library.
unfoldable pub key_for : Option Text → Method → Option Text
key_for key hmac = key
key_for key (other_method name) = none

unfoldable pub checked : Option (Claims × Bool) → Option Claims
checked none = none
checked (some (claims, valid)) = if valid then some claims else none

unfoldable pub validate_token : Jwt → Option Text → ℕ → Text → Option Claims
unfolding key_for checked
validate_token lib key now token = checked (lib.parse now (key_for key) token)

unfoldable pub sign_with : Jwt → Option Text → Claims → Option Text
sign_with lib none c = none
sign_with lib (some key) c = lib.sign key c

-- The operations on tokens with the library and with the key that the cache or the environment has.
unfoldable pub with_jwt : Jwt → (Text → Option Text) → Option Text → Crypto → Crypto
unfolding validate_token sign_with get_jwt_key
with_jwt lib env cache x = record x {
  sign = sign_with lib (get_jwt_key env cache);
  validate = validate_token lib (get_jwt_key env cache);
}

-- What lets a request pass.
authenticate-admits :
    (x : Crypto) (w : World) (r : Request) (users : UserTable) (u : User) (token : Text)
    (c : Claims)
    → r.access_cookie ≡ some token
    → x.validate w.now token ≡ some c
    → c.fingerprint ≡ generate_fingerprint x r.ip r.user_agent
    → get_user_by_id w.user_fault c.user_id users ≡ inl u
    → u.is_banned ≡ false
    → authenticate x w r users ≡ record { status = 0; cookies = []; user = some u }
unfolding authenticate check_cookie check_claims admit
authenticate-admits x w r users u token c cookie valid bound stored free =
    ap (λ o. check_cookie x w o r users) cookie
    ∙ ap (λ o. check_claims x w o r users) valid
    ∙ ground (arith, bound, stored, free)

-- A signed token is valid under the key that signed it.
validate_token-sign :
    (lib : Jwt) (key : Option Text) (c : Claims) (token : Text) (now : ℕ)
    → IsJwt lib
    → sign_with lib key c ≡ some token
    → c.not_before ≤ now
    → now < c.expires_at
    → validate_token lib key now token ≡ some c
unfolding sign_with validate_token
validate_token-sign lib none c token now law s from until = absurd (ground (arith, s))
validate_token-sign lib (some key) c token now law s from until =
    ap checked (law.reads key token c now (key_for (some key)) s refl from until)

-- A key that signs is the one that the cache has from then on.
cached-key :
    (lib : Jwt) (env : Text → Option Text) (key : Option Text) (c : Claims) {token : Text}
    → sign_with lib key c ≡ some token
    → get_jwt_key env key ≡ key
unfolding sign_with get_jwt_key
cached-key lib env none c s = absurd (ground (arith, s))
cached-key lib env (some key) c s = refl

-- Where the JWT library does what it documents, a token that `GenerateToken` makes at the first use
-- of the key lets its user pass `Authenticate`: with the same address and user agent, at any time
-- from two minutes before it was made to less than fifteen minutes after, whatever the environment
-- holds by then, if the user is in the table and not banned.
pub generate_token-authenticate :
    (lib : Jwt) (x : Crypto) (env env' : Text → Option Text) (made : ℕ) (token : Text) (w : World)
    (r : Request) (users : UserTable) (u : User)
    → IsJwt lib
    → generate_token (with_jwt lib env none x) made u.id r.user_agent r.ip ≡ some token
    → r.access_cookie ≡ some token
    → made - 120 ≤ w.now
    → w.now < made + 900
    → get_user_by_id w.user_fault u.id users ≡ inl u
    → u.is_banned ≡ false
    → authenticate (with_jwt lib env' (get_jwt_key env none) x) w r users
      ≡ record { status = 0; cookies = []; user = some u }
unfolding with_jwt generate_token
generate_token-authenticate lib x env env' made token w r users u law g c from until stored free =
    let key = get_jwt_key env none in
    let claims : Claims = record {
      user_id = u.id;
      fingerprint = generate_fingerprint x r.ip r.user_agent;
      issued_at = made;
      expires_at = made + 900;
      not_before = made - 120;
    } in
    authenticate-admits (with_jwt lib env' key x) w r users u token claims c
      (ap (λ k. validate_token lib k w.now token) (cached-key lib env' key claims g)
        ∙ validate_token-sign lib key claims token w.now law g from until)
      refl stored free
