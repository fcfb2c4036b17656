-- ===== src/Api/Signup/Accounts.antt =====
-- What signing up leaves in the table of users.
use websocket_challenge.Base.{
  ℕ, ◌≤◌, ◌≡◌, ◌≢◌, ◌∙◌, ◌⊎◌, inl, inr, refl, ap, subst, Bool, true, false, not, ◌&&◌, ◌||◌, Option,
  none, some, [], ◌∷◌, ◌++◌, arith, length, leb, ltb, Bool-cases, Text, ◌≟◌, byte_length,
  trim_space,
}
use websocket_challenge.Repository.Tokens.{
  RepoError, no_rows, timed_out, not_found, failed, TokenTable,
}
use websocket_challenge.Repository.Users.{
  User, UserTable, find_user, found_user, clashes, create_user, get_user_by_username,
}
use websocket_challenge.Api.Credentials.{Crypto, verify_password}
use websocket_challenge.Api.Handlers.{refuse, Request, World, login_handler, check_password}
use websocket_challenge.Api.Signup.{
  RegisterRequest, SignupWorld, Outcome, taken, first_session, created, store_account, unless_taken,
  check_users, check_fields, signup_handler,
}

-- The table has one more user, of this name, address and password hash, who clashes with no other.
pub record HasAccount (username email : Text) (hash : Option Text) (users users' : UserTable)
    : Type 0 where
  pub user : User
  pub added : users' ≡ users ++ user ∷ []
  pub name : user.username ≡ username
  pub address : user.email ≡ email
  pub secret : hash ≡ some user.password_hash
  pub alone : clashes user users ≡ false
  pub unbanned : user.is_banned ≡ false

-- Either the table is as before, and the answer does not say that it has a new user, or it has one.
abbrev pub IsSignup : Text → Text → Option Text → UserTable → Outcome → Type 0
IsSignup username email hash users (users', t, answer) =
    ((users' ≡ users) × (answer.status ≢ 201)) ⊎ HasAccount username email hash users users'

clashes-times :
    (user : User) (now : ℕ) (users : UserTable)
    → clashes (record user { created_at = now; updated_at = now; is_banned = false }) users
      ≡ clashes user users
clashes-times user now [] = refl
clashes-times user now (u ∷ users) = ground (arith, clashes-times user now users)

find-added :
    (user : User) (users : UserTable) (name : Text)
    → clashes user users ≡ false
    → user.username ≡ name
    → find_user (λ u. u.username ≟ name) (users ++ user ∷ []) ≡ some user
unfolding find_user
find-added user [] name alone e = ground (arith, e)
find-added user (u ∷ users) name alone e = ground (arith, alone, e, find-added user users name)

module _ (x : Crypto) (to_lower : Text → Text) (is_valid_email : Text → Bool) where
  first_session-users :
      (w : World) (user : User) (r : Request) (users : UserTable) (t : TokenTable)
      → (first_session x to_lower is_valid_email w user r users t).0 ≡ users
  unfolding first_session
  first_session-users w user r users t = ground arith

  created-IsSignup :
      (w : World) (up : Bool) (user : User) (r : Request) (users : UserTable) (t : TokenTable)
      → let (users', fault) = create_user up w.now user users in
        IsSignup user.username user.email
          (some user.password_hash)
          users
          (created x to_lower is_valid_email w user fault r users' t)
  unfolding created create_user
  created-IsSignup w up user r users t =
      elim (Bool-cases (
        up
        && (leb (length user.username) 32
            && (leb (length user.email) 255 && not (clashes user users))))) [
              | inr refused ↦ rw refused (inl (refl, omega arith))
              | inl stored ↦
                  let row : User = record user {
                    created_at = w.now;
                    updated_at = w.now;
                    is_banned = false;
                  } in
                  rw stored (
                    inr (record {
                      user = row;
                      added = first_session-users w user r (users ++ row ∷ []) t;
                      name = refl;
                      address = refl;
                      secret = refl;
                      alone = clashes-times user w.now users ∙ ground (arith, stored);
                      unbanned = refl;
                    }))
            ]

  store_account-IsSignup :
      (w : SignupWorld) (username email : Text) (hash : Option Text) (r : Request)
      (users : UserTable) (t : TokenTable)
      → IsSignup username email hash users
          (store_account x to_lower is_valid_email w username email hash r users t)
  unfolding store_account
  store_account-IsSignup w username email none r users t = inl (refl, omega arith)
  store_account-IsSignup w username email (some hash) r users t =
      created-IsSignup w.session w.create_up _ r users t

  unless_taken-IsSignup :
      (username email : Text) (hash : Option Text) (a : User ⊎ RepoError) (users : UserTable)
      (t : TokenTable) (rest : Outcome)
      → IsSignup username email hash users rest
      → IsSignup username email hash users
          (unless_taken x to_lower is_valid_email (taken a) users t rest)
  unfolding unless_taken taken
  unless_taken-IsSignup username email hash (inl u) users t rest v = inl (refl, omega arith)
  unless_taken-IsSignup username email hash (inr no_rows) users t rest v = v
  unless_taken-IsSignup username email hash (inr timed_out) users t rest v = inl (refl, omega arith)
  unless_taken-IsSignup username email hash (inr not_found) users t rest v = inl (refl, omega arith)
  unless_taken-IsSignup username email hash (inr failed) users t rest v = inl (refl, omega arith)

  check_users-IsSignup :
      (w : SignupWorld) (username email : Text) (r : Request) (users : UserTable) (t : TokenTable)
      → IsSignup username email w.hashed users
          (check_users x to_lower is_valid_email w username email r users t)
  unfolding check_users
  check_users-IsSignup w username email r users t =
      unless_taken-IsSignup username email w.hashed _ users t _ (
        unless_taken-IsSignup username email w.hashed _ users t _
          (store_account-IsSignup w username email w.hashed r users t))

  pub check_fields-cases :
      (w : SignupWorld) (username email password : Text) (r : Request) (users : UserTable)
      (t : TokenTable)
      → (check_fields x to_lower is_valid_email w username email password r users t
          ≡ (users, t, refuse 400))
        ⊎ ((check_fields x to_lower is_valid_email w username email password r users t
              ≡ check_users x to_lower is_valid_email w username email r users t)
            × (username ≢ [])
            × (is_valid_email email ≡ true)
            × (8 ≤ byte_length password))
  unfolding check_fields
  check_fields-cases w username email password r users t =
      elim (Bool-cases ((username ≟ [] || email ≟ []) || password ≟ [])) [
        | inl e ↦ inl (rw (e, check_fields) refl)
        | inr e ↦ elim (Bool-cases (is_valid_email email)) [
          | inr e' ↦ inl (rw (e, e', check_fields) refl)
          | inl e' ↦ elim (Bool-cases (ltb (byte_length password) 8)) [
            | inl e'' ↦ inl (rw (e, e', e'', check_fields) refl)
            | inr e'' ↦ inr (
              rw (e, e', e'', check_fields) refl,
              λ q. ground (arith, e, q),
              e',
              ground (arith, e''),
            )
          ]
        ]
      ]

  -- Signing up either leaves the table of users as it was and answers with a status other than 201,
  -- or adds one user: of the trimmed name and the lower-case address of the request, with the hash
  -- that bcrypt gave, not banned, and alone with that id, name and address. It then holds that the
  -- name is not empty, the address is valid and the password has eight bytes or more.
  pub signup_handler-account :
      (w : SignupWorld) (body : RegisterRequest) (r : Request) (users : UserTable) (t : TokenTable)
      → let (users', t', answer) =
          signup_handler x to_lower is_valid_email w (some body) r users t in
        let name = trim_space body.username in
        let email = trim_space (to_lower body.email) in
        ((users' ≡ users) × (answer.status ≢ 201))
        ⊎ (HasAccount name email w.hashed users users'
            × (name ≢ [])
            × (is_valid_email email ≡ true)
            × (8 ≤ byte_length body.password))
  unfolding signup_handler
  signup_handler-account w body r users t =
      let name = trim_space body.username in
      let email = trim_space (to_lower body.email) in
      elim (check_fields-cases w name email body.password r users t) [
        | inl e ↦ rw e (inl (refl, omega arith))
        | inr (e, named, valid, long) ↦ rw e (elim (check_users-IsSignup w name email r users t) [
          | inl same ↦ inl same
          | inr account ↦ inr (account, named, valid, long)
        ])
      ]

  check_password-swapped :
      (w : World) (password : Text) (user : User) (r : Request) (t : TokenTable)
      → x.verify password user.password_hash ≡ false
      → check_password x w password (inl user) r t ≡ (t, refuse 401)
  unfolding check_password verify_password
  check_password-swapped w password user r t e = rw (e, check_password) refl

  login_body :
      (w : World) (username password : Text) (r : Request) (users : UserTable) (t : TokenTable)
      → trim_space username ≢ []
      → 8 ≤ byte_length password
      → login_handler x w (some (username, password)) r users t
        ≡ check_password x w password
            (get_user_by_username w.user_fault (trim_space username) users)
            r
            t
  unfolding login_handler
  login_body w username [] r users t named long = absurd (omega (arith, long))
  login_body w username (c ∷ s) r users t named long = ground (arith, named)

  account-login :
      (w : World) (username email hash password : Text) (r : Request) (users users' : UserTable)
      (t : TokenTable)
      → HasAccount (trim_space username) email (some hash) users users'
      → trim_space username ≢ []
      → 8 ≤ byte_length password
      → x.verify password hash ≡ false
      → w.user_fault ≡ none
      → login_handler x w (some (username, password)) r users' t ≡ (t, refuse 401)
  unfolding get_user_by_username found_user
  account-login w username email hash password r users users' t a named long swapped up =
      let found : find_user (λ u. u.username ≟ trim_space username) users' ≡ some a.user =
        ap (find_user (λ u. u.username ≟ trim_space username)) a.added
        ∙ find-added a.user users (trim_space username) a.alone a.name in
      login_body w username password r users' t named long
      ∙ ap
          (λ f.
            check_password x w password (get_user_by_username f (trim_space username) users') r t)
          up
      ∙ ap (λ o. check_password x w password (found_user o) r t) found
      ∙ check_password-swapped w password a.user r t
          (ap (λ h. x.verify password h) (ground (arith, a.secret)) ∙ swapped)

  -- After signing up with status 201, the same user cannot log in with the same name and password
  -- while the database works: if bcrypt does not take the password for a hash of the hash, the
  -- answer is status 401, whatever it says of the hash and the password.
  pub signup-login_refused :
      (w : SignupWorld) (body : RegisterRequest) (hash : Text) (r : Request) (users : UserTable)
      (t : TokenTable) (w' : World) (r' : Request)
      → w.hashed ≡ some hash
      → (signup_handler x to_lower is_valid_email w (some body) r users t).2.status ≡ 201
      → w'.user_fault ≡ none
      → x.verify body.password hash ≡ false
      → let (users', t', _) = signup_handler x to_lower is_valid_email w (some body) r users t in
        login_handler x w' (some (body.username, body.password)) r' users' t' ≡ (t', refuse 401)
  signup-login_refused w body hash r users t w' r' h ok up swapped =
      elim (signup_handler-account w body r users t) [
        | inl same ↦ absurd (same.1 ok)
        | inr (account, named, valid, long) ↦
            account-login w' body.username _ hash body.password r' users _ _
              (subst
                (λ o.
                  HasAccount (trim_space body.username) (trim_space (to_lower body.email)) o users
                    (signup_handler x to_lower is_valid_email w (some body) r users t).0)
                h account)
              named long swapped up
      ]
