-- ===== src/Api/Service/Hashes.antt =====
-- Every route for those with an account keeps the hashes of refresh tokens unique.
use websocket_challenge.Base.{
  ℕ, ◌≡◌, sym, ap, subst, Bool, not, ◌||◌, Option, none, some, [], arith, Text, ◌≟◌, ◌⊎◌, inl, inr,
  Bool-cases, Option-cases, trim_space, ltb,
}
use websocket_challenge.Repository.Tokens.{
  RefreshToken, RepoError, no_rows, timed_out, not_found, failed, TokenTable, revoke_token,
  save_refresh_token,
}
use websocket_challenge.Repository.Tokens.Rotation.{UniqueHashes}
use websocket_challenge.Repository.Users.{User, UserTable}
use websocket_challenge.Api.Credentials.{Crypto, verify_password}
use websocket_challenge.Api.Handlers.{
  Request, World, store_session, open_session, check_password, login_handler, rotate, same_ip,
  check_token, refresh_with, refresh_handler, revoke_found, forget_cookie, logout_handler,
}
use websocket_challenge.Api.Reuse.{open_session-cases}
use websocket_challenge.Repository.Tokens.Unique.{save-UniqueHashes, revoke-UniqueHashes}

module _ (x : Crypto) where
  pub store_session-UniqueHashes :
      (w : World) (status : ℕ) (user : Option User) (token : Text) (made : Text × RefreshToken)
      (t : TokenTable)
      → UniqueHashes t
      → UniqueHashes (store_session x w status user token made t).0
  unfolding store_session
  store_session-UniqueHashes w status user token made t v =
      subst UniqueHashes (sym same) (save-UniqueHashes w.save_up w.known w.new_id w.now made.1 t v)
    where
      same :
          (store_session x w status user token made t).0
          ≡ (save_refresh_token w.save_up w.known w.new_id w.now made.1 t).0
      same = elim (Option-cases (save_refresh_token w.save_up w.known w.new_id w.now made.1 t).1) [
        | inl e ↦ ground (arith, e)
        | inr (f, e) ↦ ground (arith, e)
      ]

  open_session-UniqueHashes :
      (w : World) (user : Option User) (user_id : ℕ) (r : Request) (t : TokenTable)
      → UniqueHashes t
      → UniqueHashes (open_session x w user user_id r t).0
  open_session-UniqueHashes w user user_id r t v = elim (open_session-cases x w user user_id r t) [
    | inl e ↦ subst UniqueHashes (sym (ap (λ a. a.0) e)) v
    | inr (token, made, _, e) ↦
        subst UniqueHashes (sym (ap (λ a. a.0) e))
          (store_session-UniqueHashes w 200 user token made t v)
  ]

  check_password-UniqueHashes :
      (w : World) (password : Text) (found : User ⊎ RepoError) (r : Request) (t : TokenTable)
      → UniqueHashes t
      → UniqueHashes (check_password x w password found r t).0
  unfolding check_password
  check_password-UniqueHashes w password (inr no_rows) r t v = v
  check_password-UniqueHashes w password (inr timed_out) r t v = v
  check_password-UniqueHashes w password (inr not_found) r t v = v
  check_password-UniqueHashes w password (inr failed) r t v = v
  check_password-UniqueHashes w password (inl user) r t v =
      elim (Bool-cases (verify_password x password user.password_hash)) [
        | inl e ↦ rw e (open_session-UniqueHashes w (some user) user.id r t v)
        | inr e ↦ rw e v
      ]

  pub login_handler-UniqueHashes :
      (w : World) (body : Option (Text × Text)) (r : Request) (users : UserTable) (t : TokenTable)
      → UniqueHashes t
      → UniqueHashes (login_handler x w body r users t).0
  unfolding login_handler
  login_handler-UniqueHashes w none r users t v = v
  login_handler-UniqueHashes w (some (username, password)) r users t v =
      elim (Bool-cases (trim_space username ≟ [] || password ≟ [])) [
        | inl e ↦ rw e v
        | inr e ↦ rw e (check_password-UniqueHashes w password _ r t v)
      ]

  rotate-UniqueHashes :
      (w : World) (k : RefreshToken) (r : Request) (t : TokenTable)
      → UniqueHashes t
      → UniqueHashes (rotate x w k r t).0
  unfolding rotate
  rotate-UniqueHashes w k r t v =
      let u = revoke-UniqueHashes w.revoke_up k.id t v in
      elim (Option-cases (revoke_token w.revoke_up k.id t).1) [
        | inl e ↦
            let t' = (revoke_token w.revoke_up k.id t).0 in
            let same : (rotate x w k r t).0 ≡ (open_session x w none k.user_id r t').0 =
              ground (arith, e) in
            subst UniqueHashes (sym same) (open_session-UniqueHashes w none k.user_id r t' u)
        | inr (f, e) ↦
            let same : (rotate x w k r t).0 ≡ (revoke_token w.revoke_up k.id t).0 =
              ground (arith, e) in
            subst UniqueHashes (sym same) u
      ]

  check_token-UniqueHashes :
      (w : World) (found : RefreshToken ⊎ RepoError) (r : Request) (t : TokenTable)
      → UniqueHashes t
      → UniqueHashes (check_token x w found r t).0
  unfolding check_token
  check_token-UniqueHashes w (inr no_rows) r t v = v
  check_token-UniqueHashes w (inr timed_out) r t v = v
  check_token-UniqueHashes w (inr not_found) r t v = v
  check_token-UniqueHashes w (inr failed) r t v = v
  check_token-UniqueHashes w (inl k) r t v = elim (Bool-cases (ltb k.expires_at w.now)) [
    | inl e ↦ rw e v
    | inr e ↦
        elim (Bool-cases
          (not (k.user_agent ≟ r.user_agent) || not (same_ip k.client_ip (x.parse_ip r.ip)))) [
            | inl f ↦ rw (e, f) v
            | inr f ↦ rw (e, f) (rotate-UniqueHashes w k r t v)
          ]
  ]

  pub refresh_handler-UniqueHashes :
      (w : World) (r : Request) (t : TokenTable)
      → UniqueHashes t
      → UniqueHashes (refresh_handler x w r t).0
  unfolding refresh_handler
  refresh_handler-UniqueHashes w r t v = go r.refresh_cookie
    where
      go : (o : Option Text) → UniqueHashes (refresh_with x w o r t).0
      go none = unfold refresh_with in v
      go (some value) = unfold refresh_with in check_token-UniqueHashes w _ r t v

  revoke_found-UniqueHashes :
      (up : Bool) (found : RefreshToken ⊎ RepoError) (t : TokenTable)
      → UniqueHashes t
      → UniqueHashes (revoke_found x up found t)
  unfolding revoke_found
  revoke_found-UniqueHashes up (inr e) t v = v
  revoke_found-UniqueHashes up (inl k) t v = revoke-UniqueHashes up k.id t v

  pub logout_handler-UniqueHashes :
      (w : World) (r : Request) (t : TokenTable)
      → UniqueHashes t
      → UniqueHashes (logout_handler x w r t).0
  unfolding logout_handler
  logout_handler-UniqueHashes w r t v = go r.refresh_cookie
    where
      go : (o : Option Text) → UniqueHashes (forget_cookie x w o t)
      go none = unfold forget_cookie in v
      go (some value) = unfold forget_cookie in revoke_found-UniqueHashes w.revoke_up _ t v
