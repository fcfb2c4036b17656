-- ===== src/Tests/Accounts.antt =====
-- Tokens and sessions on concrete tables, with simple functions for the cryptography.
mod Calls
use websocket_challenge.Base.{
  false, ◌⊎◌, ◌≤◌, trim_space, trim_left, ◌≡◌, ◌≢◌, refl, true, false, none, some, [], ◌∷◌,
  if◌then◌else◌, codes, ◌≟◌, text_dec, inr,
}
use websocket_challenge.Repository.Tokens.{
  RefreshToken, not_found, find_token, found_token, get_token_by_hash, save_refresh_token,
  revoke_row, revoke_token,
}
use websocket_challenge.Repository.Users.{
  create_user, get_user_by_username, get_user_by_email, User, find_user, found_user, get_user_by_id,
}
use websocket_challenge.Api.{
  Crypto, Request, World, refuse, refresh_handler, refresh_with, check_token, rotate, open_session,
  store_session, generate_token, generate_fingerprint, create_refresh_token, logout_handler,
  login_handler, authenticate, check_cookie, check_claims, admit,
}
use websocket_challenge.Api.Signup.{
  RegisterRequest, SignupWorld, signup_handler, check_fields, check_users, unless_taken, taken,
  store_account, created, first_session,
}
use websocket_challenge.Api.Signup.Accounts.{
  HasAccount, signup_handler-account, signup-login_refused,
}
use websocket_challenge.Hashing.{new_consistent_hashing, get}
use websocket_challenge.Limiter.{new_rate_limiter, refill_rate}
use websocket_challenge.Chat.Hub.{Client, Hub}
use websocket_challenge.Chat.Hub.Runs.{new_hub}
use websocket_challenge.Chat.Pump.{Reader}
use websocket_challenge.Chat.Entry.{serve_ws, accept_user, sanitize, checked_room}
use websocket_challenge.Server.{Query, ws_route, cors, pass_on}
use websocket_challenge.Server.Doorway.{IsGuest, ws_route-IsGuest}
use websocket_challenge.Api.Reuse.{refresh_handler-once, logout_handler-final}
use websocket_challenge.Api.Access.{Admitted, sessions_refused}

abbrev pub toy : Crypto
toy = record {
  sha = λ s. s;
  verify = λ h p. h ≟ p;
  sign = λ c. some c.fingerprint;
  validate = λ now s.
      some
        (record { user_id = 1; fingerprint = s; issued_at = 0; expires_at = 900; not_before = 0 });
  parse_ip = λ s. if s ≟ codes "::1" then some 1 else none;
  scan_ip = λ o. o;
}

abbrev stored : RefreshToken
stored = record {
  id = 1;
  user_id = 1;
  token_hashed = codes "old";
  user_agent = codes "::1";
  client_ip = some 1;
  is_revoked = false;
  expires_at = 1000;
  created_at = 0;
}

abbrev ann : User
ann = record {
  id = 1;
  username = codes "ann";
  password_hash = codes "secret";
  email = codes "a@b.c";
  created_at = 0;
  updated_at = 0;
  is_banned = false;
}

abbrev pub visit : Request
visit = record {
  access_cookie = some (codes "::1|::1");
  refresh_cookie = some (codes "old");
  user_agent = codes "::1";
  ip = codes "::1";
}

abbrev browser : Request
browser = record visit { user_agent = codes "Mozilla" }

abbrev pub calm : World
calm = record {
  now = 10;
  raw = some (codes "new");
  new_id = 2;
  known = true;
  user_fault = none;
  lookup_up = true;
  revoke_up = true;
  save_up = true;
}

logout_handler-final_example :
    get_token_by_hash (λ o. o) true (codes "old") (logout_handler toy calm visit (stored ∷ [])).0
    ≡ inr not_found
logout_handler-final_example =
    logout_handler-final toy calm visit (codes "old") (stored ∷ []) (refl, tt) refl refl refl

sessions_refused_example :
    ((login_handler toy calm (some (codes "ann", codes "secret")) browser (ann ∷ []) []).1.status
      ≢ 200)
    × ((refresh_handler toy calm browser []).1.status ≢ 200)
unfolding text_dec
sessions_refused_example =
    sessions_refused toy calm (some (codes "ann", codes "secret")) browser (ann ∷ []) [] refl

abbrev pub bob : RegisterRequest
bob = record { username = codes "bob"; email = codes "b@c.d"; password = codes "password" }

abbrev pub first_visit : SignupWorld
first_visit = record {
  session = calm;
  email_fault = none;
  create_up = true;
  hashed = some (codes "hash");
  user_id = 2;
}

signup_handler-account_example :
    let (users', t', answer) =
      signup_handler toy (λ s. s) (λ s. true) first_visit (some bob) visit [] [] in
    ((users' ≡ []) × (answer.status ≢ 201))
    ⊎ (HasAccount
          (trim_space (codes "bob"))
          (trim_space (codes "b@c.d"))
          (some (codes "hash"))
          []
          users'
        × (trim_space (codes "bob") ≢ [])
        × (true ≡ true)
        × (8 ≤ 8))
signup_handler-account_example =
    signup_handler-account toy (λ s. s) (λ s. true) first_visit bob visit [] []

signup-login_refused_example :
    let (users', t', _) =
      signup_handler toy (λ s. s) (λ s. true) first_visit (some bob) visit [] [] in
    login_handler toy calm (some (codes "bob", codes "password")) visit users' t' ≡ (t', refuse 401)
unfolding signup_handler check_fields check_users unless_taken taken store_account created
    first_session create_user get_user_by_username get_user_by_email found_user find_user
    store_session generate_token generate_fingerprint create_refresh_token save_refresh_token
    text_dec trim_space trim_left
signup-login_refused_example =
    signup-login_refused toy (λ s. s) (λ s. true) first_visit bob (codes "hash") visit [] [] calm
      visit refl refl refl refl

-- A server that no ring knows yet, and a client that comes from nowhere.
abbrev alone : Hub
unfolding new_hub new_consistent_hashing
alone =
    new_hub (codes "s:1") true (new_consistent_hashing 2)
      (λ c. record { room_id = []; name = []; send = []; closed = false })

abbrev query : Query
query = record { from_server = []; room = codes "my-room"; seconds = 7; now = 7 }

abbrev newcomer : Client
newcomer = record { room_id = codes "my-room"; name = codes "ann"; send = []; closed = false }

abbrev newcomer_reader : Reader
newcomer_reader = record { limiter = new_rate_limiter 7 5 refill_rate; last_warning = 7 }

ws_route-IsGuest_example :
    (codes "GET" ≢ codes "OPTIONS")
    × ((u : User) × Admitted toy calm visit (ann ∷ []) u
        × IsGuest toy (λ s. s) (λ s. 0) (λ i. codes "u") u query alone newcomer)
unfolding ws_route cors pass_on authenticate check_cookie check_claims admit generate_fingerprint
    get_user_by_id found_user find_user text_dec alone serve_ws accept_user get sanitize
    checked_room trim_space trim_left
ws_route-IsGuest_example =
    ws_route-IsGuest toy (λ s. s) (λ s. 0) (λ i. codes "u") (codes "GET") calm visit (ann ∷ [])
      query alone newcomer newcomer_reader refl
