-- ===== src/Api/Handlers.antt =====
-- `LoginHandler`, `RefreshHandler` and `Logouthandler` of internal/api/authHandler.go, and
-- `Authenticate` of internal/middleware/auth-middleware.go.
use websocket_challenge.Base.{
  trim_space, ℕ, ◌+◌, Bool, true, false, not, ◌||◌, Option, none, some, List, [], ◌∷◌, ltb, ◌==◌,
  if◌then◌else◌, Text, codes, ◌≟◌, ◌⊎◌, inl, inr,
}
use websocket_challenge.Repository.Tokens.{
  RepoError, no_rows, timed_out, RefreshToken, TokenTable, save_refresh_token, get_token_by_hash,
  revoke_token,
}
use websocket_challenge.Repository.Users.{User, UserTable, get_user_by_username, get_user_by_id}
use websocket_challenge.Api.Credentials.{
  Crypto, Claims, generate_fingerprint, generate_token, create_refresh_token, verify_password,
}

-- `is_deleted` stands for a `MaxAge` of -1.
pub record Cookie : Type 0 where
  pub name : Text
  pub value : Text
  pub path : Text
  pub expires : ℕ
  pub is_deleted : Bool

-- The status, the cookies that are set, and the user that the answer or the context names.
pub record Response : Type 0 where
  pub status : ℕ
  pub cookies : List Cookie
  pub user : Option User

abbrev pub refuse : ℕ → Response
refuse status = record { status = status; cookies = []; user = none }

-- What the handlers read of a request; `ip` is what `getIP` returns.
pub record Request : Type 0 where
  pub access_cookie : Option Text
  pub refresh_cookie : Option Text
  pub user_agent : Text
  pub ip : Text

-- What the world answers to one request: the clock, the random string, the id of a new row, whether
-- its user exists, and whether each call of the database succeeds.
pub record World : Type 0 where
  pub now : ℕ
  pub raw : Option Text
  pub new_id : ℕ
  pub known : Bool
  pub user_fault : Option RepoError
  pub lookup_up : Bool
  pub revoke_up : Bool
  pub save_up : Bool

abbrev pub session_cookies : ℕ → Text → Text → List Cookie
session_cookies now token refresh_token =
    record {
      name = codes "access_token";
      value = token;
      path = codes "/";
      expires = now + 900;
      is_deleted = false;
    }
    ∷ record {
      name = codes "refresh_token";
      value = refresh_token;
      path = codes "/api/auth/refresh";
      expires = now + 604800;
      is_deleted = false;
    }
    ∷ []

abbrev pub cleared_cookies : List Cookie
cleared_cookies =
    record {
      name = codes "access_token";
      value = [];
      path = codes "/";
      expires = 0;
      is_deleted = true;
    }
    ∷ record {
      name = codes "refresh_token";
      value = [];
      path = codes "/api/auth/refresh";
      expires = 0;
      is_deleted = true;
    }
    ∷ []

abbrev pub same_ip : Option ℕ → Option ℕ → Bool
same_ip none none = true
same_ip (some a) (some b) = a == b
same_ip _ _ = false

module _ (x : Crypto) where
  -- The end of the three handlers that open a session, once the tokens are made.
  unfoldable pub store_session :
      World → ℕ → Option User → Text → Text × RefreshToken → TokenTable → TokenTable × Response
  store_session w status user token made t =
      let (t', fault) = save_refresh_token w.save_up w.known w.new_id w.now made.1 t in
      elim fault [
        | some e ↦ (t', refuse 500)
        | none ↦ (
          t',
          record { status = status; cookies = session_cookies w.now token made.0; user = user },
        )
      ]

  -- `GenerateToken` and `CreateRefreshToken`, with the arguments in the order of the handlers.
  unfoldable pub open_session :
      World → Option User → ℕ → Request → TokenTable → TokenTable × Response
  unfolding store_session
  open_session w user user_id r t = elim (generate_token x w.now user_id r.user_agent r.ip) [
    | none ↦ (t, refuse 500)
    | some token ↦ elim (create_refresh_token x w.raw w.now user_id r.user_agent r.ip) [
      | none ↦ (t, refuse 500)
      | some made ↦ store_session w 200 user token made t
    ]
  ]

  unfoldable pub check_password :
      World → Text → User ⊎ RepoError → Request → TokenTable → TokenTable × Response
  unfolding open_session
  check_password w password (inr no_rows) r t = (t, refuse 401)
  check_password w password (inr _) r t = (t, refuse 500)
  check_password w password (inl user) r t =
      if verify_password x password user.password_hash
      then open_session w (some user) user.id r t
      else (t, refuse 401)

  -- `body` is the name and the password of the request, if it is JSON.
  unfoldable pub login_handler :
      World → Option (Text × Text) → Request → UserTable → TokenTable → TokenTable × Response
  unfolding check_password
  login_handler w none r users t = (t, refuse 400)
  login_handler w (some (username, password)) r users t =
      let name = trim_space username in
      if name ≟ [] || password ≟ []
      then (t, refuse 400)
      else check_password w password (get_user_by_username w.user_fault name users) r t

  -- From the revocation of the old token on.
  unfoldable pub rotate : World → RefreshToken → Request → TokenTable → TokenTable × Response
  unfolding open_session
  rotate w k r t =
      let (t', fault) = revoke_token w.revoke_up k.id t in
      elim fault [ some e ↦ (t', refuse 500) | none ↦ open_session w none k.user_id r t' ]

  unfoldable pub check_token :
      World → RefreshToken ⊎ RepoError → Request → TokenTable → TokenTable × Response
  unfolding rotate
  check_token w (inr no_rows) r t = (t, refuse 401)
  check_token w (inr _) r t = (t, refuse 500)
  check_token w (inl k) r t =
      if ltb k.expires_at w.now
      then (t, refuse 401)
      else if not (k.user_agent ≟ r.user_agent) || not (same_ip k.client_ip (x.parse_ip r.ip))
      then (t, refuse 401)
      else rotate w k r t

  unfoldable pub refresh_with : World → Option Text → Request → TokenTable → TokenTable × Response
  unfolding check_token
  refresh_with w none r t = (t, refuse 401)
  refresh_with w (some value) r t =
      check_token w (get_token_by_hash x.scan_ip w.lookup_up (x.sha value) t) r t

  unfoldable pub refresh_handler : World → Request → TokenTable → TokenTable × Response
  unfolding refresh_with
  refresh_handler w r t = refresh_with w r.refresh_cookie r t

  unfoldable pub revoke_found : Bool → RefreshToken ⊎ RepoError → TokenTable → TokenTable
  revoke_found up (inr e) t = t
  revoke_found up (inl k) t = (revoke_token up k.id t).0

  unfoldable pub forget_cookie : World → Option Text → TokenTable → TokenTable
  unfolding revoke_found
  forget_cookie w none t = t
  forget_cookie w (some value) t =
      revoke_found w.revoke_up (get_token_by_hash x.scan_ip w.lookup_up (x.sha value) t) t

  unfoldable pub logout_handler : World → Request → TokenTable → TokenTable × Response
  unfolding forget_cookie
  logout_handler w r t = (
    forget_cookie w r.refresh_cookie t,
    record { status = 200; cookies = cleared_cookies; user = none },
  )

  -- `next.ServeHTTP` is reached exactly where the answer has status 0 and names the user.
  unfoldable pub admit : User ⊎ RepoError → Response
  admit (inr timed_out) = refuse 503
  admit (inr no_rows) = refuse 401
  admit (inr _) = refuse 500
  admit (inl user) =
      if user.is_banned then refuse 403 else record { status = 0; cookies = []; user = some user }

  unfoldable pub check_claims : World → Option Claims → Request → UserTable → Response
  unfolding admit
  check_claims w none r users = refuse 401
  check_claims w (some claims) r users =
      if claims.fingerprint ≟ generate_fingerprint x r.ip r.user_agent
      then admit (get_user_by_id w.user_fault claims.user_id users)
      else refuse 403

  unfoldable pub check_cookie : World → Option Text → Request → UserTable → Response
  unfolding check_claims
  check_cookie w none r users = refuse 401
  check_cookie w (some value) r users = check_claims w (x.validate w.now value) r users

  unfoldable pub authenticate : World → Request → UserTable → Response
  unfolding check_cookie
  authenticate w r users = check_cookie w r.access_cookie r users
