-- ===== src/Api/Access.antt =====
-- Who gets in, and who gets a session.
use websocket_challenge.Base.{
  trim_space, ℕ, ◌≡◌, ◌≢◌, ◌⊎◌, inl, inr, refl, sym, ◌∙◌, ap, false, Option, none, some, arith,
  ◌==◌, Option-cases, Text, text_dec,
}
use websocket_challenge.Repository.Tokens.{
  RefreshToken, RepoError, no_rows, timed_out, not_found, failed, TokenTable, save_refresh_token,
  revoke_token, is_address,
}
use websocket_challenge.Repository.Users.{User, UserTable, get_user_by_id, get_user_by_username}
use websocket_challenge.Api.Credentials.{Crypto, Claims, generate_fingerprint, create_refresh_token}
use websocket_challenge.Api.Handlers.{
  Request, World, refuse, store_session, open_session, check_password, login_handler, rotate,
  check_token, refresh_with, refresh_handler, admit, check_claims, check_cookie, authenticate,
}
use websocket_challenge.Api.Reuse.{open_session-cases}

module _ (x : Crypto) where
  -- Why `Authenticate` lets a request pass as a user.
  pub record Admitted (w : World) (r : Request) (users : UserTable) (u : User) : Type 0 where
    pub value : Text
    pub claims : Claims
    pub cookie : r.access_cookie ≡ some value
    pub valid : x.validate w.now value ≡ some claims
    pub bound : claims.fingerprint ≡ generate_fingerprint x r.ip r.user_agent
    pub stored : get_user_by_id w.user_fault claims.user_id users ≡ inl u
    pub unbanned : u.is_banned ≡ false

  admit-user :
      (a : User ⊎ RepoError) (u : User)
      → (admit x a).user ≡ some u
      → (a ≡ inl u) × (u.is_banned ≡ false)
  unfolding admit
  admit-user (inr no_rows) u e = ground (arith, e)
  admit-user (inr timed_out) u e = ground (arith, e)
  admit-user (inr not_found) u e = ground (arith, e)
  admit-user (inr failed) u e = ground (arith, e)
  admit-user (inl v) u e = ground (arith, e)

  check_claims-user :
      (w : World) (o : Option Claims) (r : Request) (users : UserTable) (u : User)
      → (check_claims x w o r users).user ≡ some u
      → (claims : Claims) × (o ≡ some claims)
        × (claims.fingerprint ≡ generate_fingerprint x r.ip r.user_agent)
        × (get_user_by_id w.user_fault claims.user_id users ≡ inl u)
        × (u.is_banned ≡ false)
  unfolding check_claims
  check_claims-user w none r users u e = ground (arith, e)
  check_claims-user w (some claims) r users u e =
      elim (text_dec claims.fingerprint (generate_fingerprint x r.ip r.user_agent)) [
        | yes same ↦
            let (a, b) =
              admit-user (get_user_by_id w.user_fault claims.user_id users) u (ground (arith, e)) in
            (claims, refl, same, a, b)
        | no differ ↦ ground (arith, e)
      ]

  -- `Authenticate` lets a request pass as a user only if its cookie is a token that is valid now,
  -- made for the request's own address and user agent, of a user that is in the table and not
  -- banned.
  pub authenticate-Admitted :
      (w : World) (r : Request) (users : UserTable) (u : User)
      → (authenticate x w r users).user ≡ some u
      → Admitted w r users u
  unfolding authenticate check_cookie
  authenticate-Admitted w r users u e = elim (Option-cases r.access_cookie) [
    | inl c ↦ ground (arith, ap (λ o. (check_cookie x w o r users).user) (sym c) ∙ e)
    | inr (value, c) ↦
        let (claims, v, b, s, k) =
          check_claims-user w (x.validate w.now value) r users u
            (ap (λ o. (check_cookie x w o r users).user) (sym c) ∙ e) in
        record {
          value = value;
          claims = claims;
          cookie = c;
          valid = v;
          bound = b;
          stored = s;
          unbanned = k;
        }
  ]

  -- The address of the new token is what `net.ParseIP` makes of the user agent.
  store_session-refused :
      (w : World) (user : Option User) (token : Text) (made : Text × RefreshToken) (t : TokenTable)
      → is_address made.1.client_ip ≡ false
      → store_session x w 200 user token made t ≡ (t, refuse 500)
  unfolding store_session save_refresh_token
  store_session-refused w user token made t e = ground (arith, e)

  create_refresh_token-address :
      (raw : Option Text) (now user_id : ℕ) (ip ua : Text) (made : Text × RefreshToken)
      → create_refresh_token x raw now user_id ip ua ≡ some made
      → made.1.client_ip ≡ x.parse_ip ip
  unfolding create_refresh_token
  create_refresh_token-address none now user_id ip ua made e = ground (arith, e)
  create_refresh_token-address (some raw) now user_id ip ua made e = ground (arith, e)

  open_session-refused :
      (w : World) (user : Option User) (user_id : ℕ) (r : Request) (t : TokenTable)
      → x.parse_ip r.user_agent ≡ none
      → open_session x w user user_id r t ≡ (t, refuse 500)
  open_session-refused w user user_id r t e = elim (open_session-cases x w user user_id r t) [
    | inl q ↦ q
    | inr (token, made, m, q) ↦
        q
        ∙ store_session-refused w user token made t (
            ap is_address
              (create_refresh_token-address w.raw w.now user_id r.user_agent r.ip made m ∙ e))
  ]

  check_password-refused :
      (w : World) (password : Text) (a : User ⊎ RepoError) (r : Request) (t : TokenTable)
      → x.parse_ip r.user_agent ≡ none
      → ((check_password x w password a r t).1.status == 200) ≡ false
  unfolding check_password
  check_password-refused w password (inr no_rows) r t e = refl
  check_password-refused w password (inr timed_out) r t e = refl
  check_password-refused w password (inr not_found) r t e = refl
  check_password-refused w password (inr failed) r t e = refl
  check_password-refused w password (inl u) r t e =
      ground (arith, open_session-refused w (some u) u.id r t e)

  login_handler-status :
      (w : World) (body : Option (Text × Text)) (r : Request) (users : UserTable) (t : TokenTable)
      → x.parse_ip r.user_agent ≡ none
      → ((login_handler x w body r users t).1.status == 200) ≡ false
  unfolding login_handler
  login_handler-status w none r users t e = refl
  login_handler-status w (some (username, password)) r users t e = ground (
    arith,
    check_password-refused w password
        (get_user_by_username w.user_fault (trim_space username) users) r t e,
  )

  rotate-status :
      (w : World) (k : RefreshToken) (r : Request) (t : TokenTable)
      → x.parse_ip r.user_agent ≡ none
      → ((rotate x w k r t).1.status == 200) ≡ false
  unfolding rotate
  rotate-status w k r t e =
      ground (arith, open_session-refused w none k.user_id r (revoke_token w.revoke_up k.id t).0 e)

  check_token-status :
      (w : World) (a : RefreshToken ⊎ RepoError) (r : Request) (t : TokenTable)
      → x.parse_ip r.user_agent ≡ none
      → ((check_token x w a r t).1.status == 200) ≡ false
  unfolding check_token
  check_token-status w (inr no_rows) r t e = refl
  check_token-status w (inr timed_out) r t e = refl
  check_token-status w (inr not_found) r t e = refl
  check_token-status w (inr failed) r t e = refl
  check_token-status w (inl k) r t e = ground (arith, rotate-status w k r t e)

  refresh_with-status :
      (w : World) (o : Option Text) (r : Request) (t : TokenTable)
      → x.parse_ip r.user_agent ≡ none
      → ((refresh_with x w o r t).1.status == 200) ≡ false
  unfolding refresh_with
  refresh_with-status w none r t e = refl
  refresh_with-status w (some value) r t e = check_token-status w _ r t e

  -- A request whose user agent is not itself the text of an IP address gets a session neither by
  -- logging in nor by refreshing, whatever the tables hold and the database answers.
  pub sessions_refused :
      (w : World) (body : Option (Text × Text)) (r : Request) (users : UserTable) (t : TokenTable)
      → x.parse_ip r.user_agent ≡ none
      → ((login_handler x w body r users t).1.status ≢ 200)
        × ((refresh_handler x w r t).1.status ≢ 200)
  unfolding refresh_handler
  sessions_refused w body r users t e = (
    λ s. ground (arith, s, login_handler-status w body r users t e),
    λ s. ground (arith, s, refresh_with-status w r.refresh_cookie r t e),
  )
