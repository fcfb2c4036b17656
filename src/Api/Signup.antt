-- ===== src/Api/Signup.antt =====
-- `SignupHandler` of internal/api/authHandler.go.
pub mod Accounts
use websocket_challenge.Base.{
  ℕ, Bool, true, false, not, Option, none, some, List, [], ◌∷◌, ltb, ◌||◌, if◌then◌else◌, Text, ◌≟◌,
  ◌⊎◌, inl, inr, byte_length, trim_space,
}
use websocket_challenge.Repository.Tokens.{RepoError, no_rows, TokenTable}
use websocket_challenge.Repository.Users.{
  User, UserTable, create_user, get_user_by_username, get_user_by_email,
}
use websocket_challenge.Api.Credentials.{Crypto, generate_token, create_refresh_token}
use websocket_challenge.Api.Handlers.{Response, refuse, Request, World, store_session}

-- `types.RegisterRequest`
pub record RegisterRequest : Type 0 where
  pub username : Text
  pub email : Text
  pub password : Text

-- What the world answers besides: the errors of the two look-ups are `session.user_fault` and
-- `email_fault`; `hashed` is the answer of bcrypt, and `user_id` the new UUID.
pub record SignupWorld : Type 0 where
  pub session : World
  pub email_fault : Option RepoError
  pub create_up : Bool
  pub hashed : Option Text
  pub user_id : ℕ

abbrev pub Outcome : Type 0
Outcome = UserTable × TokenTable × Response

-- The test after a look-up: status 409 if there is such a user, status 500 if the look-up failed.
unfoldable pub taken : User ⊎ RepoError → Option ℕ
taken (inl u) = some 409
taken (inr no_rows) = none
taken (inr _) = some 500

-- `to_lower` is `strings.ToLower`, and `is_valid_email` says whether `mail.ParseAddress` succeeds.
module _ (x : Crypto) (to_lower : Text → Text) (is_valid_email : Text → Bool) where
  -- The session of the new user: without an access token the answer is status 201 and no cookie.
  unfoldable pub first_session : World → User → Request → UserTable → TokenTable → Outcome
  first_session w user r users t = elim (generate_token x w.now user.id r.user_agent r.ip) [
    | none ↦ (users, t, refuse 201)
    | some token ↦ elim (create_refresh_token x w.raw w.now user.id r.user_agent r.ip) [
      | none ↦ (users, t, refuse 500)
      | some made ↦
          let (t', answer) = store_session x w 201 (some user) token made t in (users, t', answer)
    ]
  ]

  unfoldable pub created :
      World → User → Option RepoError → Request → UserTable → TokenTable → Outcome
  unfolding first_session
  created w user (some e) r users t = (users, t, refuse 500)
  created w user none r users t = first_session w user r users t

  unfoldable pub store_account :
      SignupWorld → Text → Text → Option Text → Request → UserTable → TokenTable → Outcome
  unfolding created
  store_account w username email none r users t = (users, t, refuse 500)
  store_account w username email (some hash) r users t =
      let user : User = record {
        id = w.user_id;
        username = username;
        password_hash = hash;
        email = email;
        created_at = w.session.now;
        updated_at = 0;
        is_banned = false;
      } in
      let (users', fault) = create_user w.create_up w.session.now user users in
      created w.session user fault r users' t

  -- A look-up that finds a user, or fails, ends the request.
  unfoldable pub unless_taken : Option ℕ → UserTable → TokenTable → Outcome → Outcome
  unless_taken (some status) users t rest = (users, t, refuse status)
  unless_taken none users t rest = rest

  unfoldable pub check_users :
      SignupWorld → Text → Text → Request → UserTable → TokenTable → Outcome
  unfolding unless_taken store_account
  check_users w username email r users t =
      unless_taken (taken (get_user_by_username w.session.user_fault username users)) users t (
        unless_taken (taken (get_user_by_email w.email_fault email users)) users t
          (store_account w username email w.hashed r users t))

  unfoldable pub check_fields :
      SignupWorld → Text → Text → Text → Request → UserTable → TokenTable → Outcome
  unfolding check_users
  check_fields w username email password r users t =
      if (username ≟ [] || email ≟ []) || password ≟ []
      then (users, t, refuse 400)
      else if not (is_valid_email email)
      then (users, t, refuse 400)
      else if ltb (byte_length password) 8
      then (users, t, refuse 400)
      else check_users w username email r users t

  -- `body` is the request's, if it is JSON.
  unfoldable pub signup_handler :
      SignupWorld → Option RegisterRequest → Request → UserTable → TokenTable → Outcome
  unfolding check_fields
  signup_handler w none r users t = (users, t, refuse 400)
  signup_handler w (some body) r users t =
      check_fields w (trim_space body.username) (trim_space (to_lower body.email)) body.password r
        users t
