-- ===== src/Api/Service.antt =====
-- The routes of internal/api/authHandler.go and the job of internal/Tasks together, on the two
-- tables.
mod Hashes
mod Signing
use websocket_challenge.Base.{
  ℕ, ◌≡◌, ◌≢◌, ◌∙◌, refl, sym, ap, subst, Bool, true, false, ◌||◌, Option, none, some, List, [],
  ◌∷◌, ◌++◌, ◌==◌, ==_iff, arith, Text, ◌≟◌, inl, inr, trim_space, All, All-append,
}
use websocket_challenge.Repository.Tokens.{TokenTable, delete_expired_tokens}
use websocket_challenge.Repository.Users.{User, UserTable, clashes}
use websocket_challenge.Api.Credentials.{Crypto}
use websocket_challenge.Api.Handlers.{
  Request, World, login_handler, refresh_handler, logout_handler, refuse,
}
use websocket_challenge.Repository.Tokens.Rotation.{UniqueHashes}
use websocket_challenge.Api.Reuse.{refresh_handler-once}
use websocket_challenge.Repository.Tokens.Unique.{delete_expired_tokens-UniqueHashes}
use websocket_challenge.Api.Service.Signing.{signup_handler-UniqueHashes}
use websocket_challenge.Api.Service.Hashes.{
  login_handler-UniqueHashes, refresh_handler-UniqueHashes, logout_handler-UniqueHashes,
}
use websocket_challenge.Api.Signup.{RegisterRequest, SignupWorld, signup_handler}
use websocket_challenge.Api.Signup.Accounts.{HasAccount, signup_handler-account}

-- The job of `TokenCleaner` in internal/Tasks, which cron starts once a day: an error is logged.
unfoldable pub clean_tokens : Bool → ℕ → TokenTable → TokenTable
clean_tokens up now t = (delete_expired_tokens up now t).0

-- A request to one of the four routes, with what the world answers to it, or a run of the job, with
-- the database's answer and its time.
pub data Call : Type 0 where
  signs_up : SignupWorld → Option RegisterRequest → Request → Call
  logs_in : World → Option (Text × Text) → Request → Call
  refreshes logs_out : World → Request → Call
  cleans : Bool → ℕ → Call

pub record Tables : Type 0 where
  pub users : UserTable
  pub tokens : TokenTable

module _ (x : Crypto) (to_lower : Text → Text) (is_valid_email : Text → Bool) where
  unfoldable pub serve : Call → Tables → Tables
  unfolding clean_tokens
  serve (signs_up w body r) s =
      let (users', tokens', answer) =
        signup_handler x to_lower is_valid_email w body r s.users s.tokens in
      record { users = users'; tokens = tokens' }
  serve (logs_in w body r) s = record s { tokens = (login_handler x w body r s.users s.tokens).0 }
  serve (refreshes w r) s = record s { tokens = (refresh_handler x w r s.tokens).0 }
  serve (logs_out w r) s = record s { tokens = (logout_handler x w r s.tokens).0 }
  serve (cleans up now) s = record s { tokens = clean_tokens up now s.tokens }

  unfoldable pub serve_all : List Call → Tables → Tables
  unfolding serve
  serve_all [] s = s
  serve_all (c ∷ cs) s = serve_all cs (serve c s)

-- No two rows have one id, one name or one address.
abbrev pub IsUnique : UserTable → Type 0
IsUnique [] = Unit
IsUnique (u ∷ t) = (clashes u t ≡ false) × IsUnique t

clashes-append :
    (u v : User) (t : UserTable)
    → clashes u t ≡ false
    → clashes v (u ∷ []) ≡ false
    → clashes u (t ++ v ∷ []) ≡ false
clashes-append u v [] h k = ground (arith, k, ==_iff u.id v.id, ==_iff v.id u.id)
clashes-append u v (y ∷ t) h k = ground (arith, h, clashes-append u v t)

append-IsUnique :
    (u : User) (t : UserTable) → IsUnique t → clashes u t ≡ false → IsUnique (t ++ u ∷ [])
append-IsUnique u [] v h = (refl, tt)
append-IsUnique u (y ∷ t) v h =
    (clashes-append y u t v.0 (ground (arith, h)), append-IsUnique u t v.1 (ground (arith, h)))

module _ (x : Crypto) (to_lower : Text → Text) (is_valid_email : Text → Bool) where
  -- What the columns of a user promise.
  abbrev pub IsAccount : User → Type 0
  IsAccount u = (u.username ≢ []) × (is_valid_email u.email ≡ true) × (u.is_banned ≡ false)

  pub record IsSound (s : Tables) : Type 0 where
    pub unique : IsUnique s.users
    pub accounts : All IsAccount s.users
    pub hashes : UniqueHashes s.tokens

  signup-IsSound :
      (w : SignupWorld) (body : Option RegisterRequest) (r : Request) (s : Tables)
      → IsSound s
      → IsSound (serve x to_lower is_valid_email (signs_up w body r) s)
  unfolding serve
  signup-IsSound w none r s v = unfold signup_handler in v
  signup-IsSound w (some body) r s v =
      let hashes =
        signup_handler-UniqueHashes x to_lower is_valid_email w (some body) r s.users s.tokens
          v.hashes in
      elim (signup_handler-account x to_lower is_valid_email w body r s.users s.tokens) [
        | inl (same, _) ↦ record {
          unique = subst IsUnique (sym same) v.unique;
          accounts = subst (All IsAccount) (sym same) v.accounts;
          hashes = hashes;
        }
        | inr (a, named, valid, _) ↦ record {
          unique = subst IsUnique (sym a.added) (append-IsUnique a.user s.users v.unique a.alone);
          accounts = subst (All IsAccount) (sym a.added) (
              All-append IsAccount s.users (a.user ∷ []) v.accounts (
                (λ e. named (sym a.name ∙ e), ap is_valid_email a.address ∙ valid, a.unbanned),
                tt,
              ));
          hashes = hashes;
        }
      ]

  serve-IsSound :
      (c : Call) (s : Tables) → IsSound s → IsSound (serve x to_lower is_valid_email c s)
  unfolding serve
  serve-IsSound (signs_up w body r) s v = signup-IsSound w body r s v
  serve-IsSound (logs_in w body r) s v = record {
    unique = v.unique;
    accounts = v.accounts;
    hashes = login_handler-UniqueHashes x w body r s.users s.tokens v.hashes;
  }
  serve-IsSound (refreshes w r) s v = record {
    unique = v.unique;
    accounts = v.accounts;
    hashes = refresh_handler-UniqueHashes x w r s.tokens v.hashes;
  }
  serve-IsSound (logs_out w r) s v = record {
    unique = v.unique;
    accounts = v.accounts;
    hashes = logout_handler-UniqueHashes x w r s.tokens v.hashes;
  }
  serve-IsSound (cleans up now) s v = record {
    unique = v.unique;
    accounts = v.accounts;
    hashes = unfold clean_tokens in delete_expired_tokens-UniqueHashes up now s.tokens v.hashes;
  }

  serve_all-IsSound :
      (cs : List Call) (s : Tables) → IsSound s → IsSound (serve_all x to_lower is_valid_email cs s)
  unfolding serve_all
  serve_all-IsSound [] s v = v
  serve_all-IsSound (c ∷ cs) s v =
      serve_all-IsSound cs (serve x to_lower is_valid_email c s) (serve-IsSound c s v)

  abbrev pub after : List Call → Tables
  after cs = serve_all x to_lower is_valid_email cs (record { users = []; tokens = [] })

  -- From empty tables, after any requests to the four routes and runs of the cleaner, whatever the
  -- world answers: no two users have one id, name or address, every user has a name and a valid
  -- address and is not banned, and no two refresh tokens have one hash. If the refresh route then
  -- answers a cookie with a session, it refuses a request with that cookie that comes next, on the
  -- tables that this refresh leaves, while the look-up works, with status 500 and without a change
  -- to the tokens.
  pub refresh_handler-serve_all :
      (cs : List Call) (w w' : World) (r r' : Request) (value : Text)
      → r.refresh_cookie ≡ some value
      → r'.refresh_cookie ≡ some value
      → w'.lookup_up ≡ true
      → (refresh_handler x w r (after cs).tokens).1.status ≡ 200
      → let s = serve x to_lower is_valid_email (refreshes w r) (after cs) in
        IsSound (after cs) × IsSound s × (refresh_handler x w' r' s.tokens ≡ (s.tokens, refuse 500))
  unfolding serve
  refresh_handler-serve_all cs w w' r r' value c c' up ok =
      let v =
        serve_all-IsSound cs (record { users = []; tokens = [] })
          (record { unique = tt; accounts = tt; hashes = tt }) in
      (
        v,
        serve-IsSound (refreshes w r) (after cs) v,
        refresh_handler-once x w w' r r' value _ v.hashes c c' up ok,
      )
