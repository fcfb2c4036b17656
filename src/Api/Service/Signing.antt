-- ===== src/Api/Service/Signing.antt =====
-- The sign-up keeps the hashes of refresh tokens unique; its table of tokens is the second of the
-- outcome.
use websocket_challenge.Base.{
  ℕ, ◌≡◌, sym, subst, Bool, Option, none, some, arith, Text, inl, inr, Option-cases, trim_space,
}
use websocket_challenge.Repository.Tokens.{RepoError, TokenTable}
use websocket_challenge.Repository.Tokens.Rotation.{UniqueHashes}
use websocket_challenge.Repository.Users.{User, UserTable, get_user_by_username, get_user_by_email}
use websocket_challenge.Api.Credentials.{Crypto, generate_token, create_refresh_token}
use websocket_challenge.Api.Handlers.{Request, World, store_session}
use websocket_challenge.Api.Signup.{
  SignupWorld, RegisterRequest, Outcome, first_session, created, store_account, taken, unless_taken,
  check_users, signup_handler,
}
use websocket_challenge.Api.Signup.Accounts.{check_fields-cases}
use websocket_challenge.Api.Service.Hashes.{store_session-UniqueHashes}

module _ (x : Crypto) (to_lower : Text → Text) (is_valid_email : Text → Bool) where
  first_session-UniqueHashes :
      (w : World) (user : User) (r : Request) (users : UserTable) (t : TokenTable)
      → UniqueHashes t
      → UniqueHashes (first_session x to_lower is_valid_email w user r users t).1
  unfolding first_session
  first_session-UniqueHashes w user r users t v =
      elim (Option-cases (generate_token x w.now user.id r.user_agent r.ip)) [
        | inl e ↦
            let same : (first_session x to_lower is_valid_email w user r users t).1 ≡ t =
              ground (arith, e) in
            subst UniqueHashes (sym same) v
        | inr (token, e) ↦
            elim (Option-cases (create_refresh_token x w.raw w.now user.id r.user_agent r.ip)) [
              | inl f ↦
                  let same : (first_session x to_lower is_valid_email w user r users t).1 ≡ t =
                    ground (arith, e, f) in
                  subst UniqueHashes (sym same) v
              | inr (made, f) ↦
                  let t' = (store_session x w 201 (some user) token made t).0 in
                  let same : (first_session x to_lower is_valid_email w user r users t).1 ≡ t' =
                    ground (arith, e, f) in
                  subst UniqueHashes (sym same)
                    (store_session-UniqueHashes x w 201 (some user) token made t v)
            ]
      ]

  created-UniqueHashes :
      (w : World) (user : User) (fault : Option RepoError) (r : Request) (users : UserTable)
      (t : TokenTable)
      → UniqueHashes t
      → UniqueHashes (created x to_lower is_valid_email w user fault r users t).1
  unfolding created
  created-UniqueHashes w user (some e) r users t v = v
  created-UniqueHashes w user none r users t v = first_session-UniqueHashes w user r users t v

  store_account-UniqueHashes :
      (w : SignupWorld) (username email : Text) (hash : Option Text) (r : Request)
      (users : UserTable) (t : TokenTable)
      → UniqueHashes t
      → UniqueHashes (store_account x to_lower is_valid_email w username email hash r users t).1
  unfolding store_account
  store_account-UniqueHashes w username email none r users t v = v
  store_account-UniqueHashes w username email (some hash) r users t v =
      created-UniqueHashes w.session _ _ r _ t v

  unless_taken-UniqueHashes :
      (o : Option ℕ) (users : UserTable) (t : TokenTable) (rest : Outcome)
      → UniqueHashes t
      → UniqueHashes rest.1
      → UniqueHashes (unless_taken x to_lower is_valid_email o users t rest).1
  unfolding unless_taken
  unless_taken-UniqueHashes (some status) users t rest v u = v
  unless_taken-UniqueHashes none users t rest v u = u

  check_users-UniqueHashes :
      (w : SignupWorld) (username email : Text) (r : Request) (users : UserTable) (t : TokenTable)
      → UniqueHashes t
      → UniqueHashes (check_users x to_lower is_valid_email w username email r users t).1
  unfolding check_users
  check_users-UniqueHashes w username email r users t v =
      let stored = store_account x to_lower is_valid_email w username email w.hashed r users t in
      let by_email = taken (get_user_by_email w.email_fault email users) in
      unless_taken-UniqueHashes (taken (get_user_by_username w.session.user_fault username users))
        users t (unless_taken x to_lower is_valid_email by_email users t stored) v
        (unless_taken-UniqueHashes by_email users t stored v
          (store_account-UniqueHashes w username email w.hashed r users t v))

  pub signup_handler-UniqueHashes :
      (w : SignupWorld) (body : Option RegisterRequest) (r : Request) (users : UserTable)
      (t : TokenTable)
      → UniqueHashes t
      → UniqueHashes (signup_handler x to_lower is_valid_email w body r users t).1
  unfolding signup_handler
  signup_handler-UniqueHashes w none r users t v = v
  signup_handler-UniqueHashes w (some body) r users t v =
      let name = trim_space body.username in
      let email = trim_space (to_lower body.email) in
      elim (check_fields-cases x to_lower is_valid_email w name email body.password r users t) [
        | inl e ↦ subst (λ (o : Outcome). UniqueHashes o.1) (sym e) v
        | inr (e, _, _, _) ↦
            subst (λ (o : Outcome). UniqueHashes o.1) (sym e)
              (check_users-UniqueHashes w name email r users t v)
      ]
