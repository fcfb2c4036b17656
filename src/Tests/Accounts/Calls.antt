-- ===== src/Tests/Accounts/Calls.antt =====
-- A sign-up, and the cookie that it leaves.
use websocket_challenge.Base.{
  ◌≡◌, refl, true, some, List, [], ◌∷◌, codes, text_dec, trim_space, trim_left,
}
use websocket_challenge.Repository.Tokens.{
  find_token, found_token, get_token_by_hash, save_refresh_token, revoke_row, revoke_token,
  delete_expired_tokens,
}
use websocket_challenge.Repository.Users.{
  create_user, get_user_by_username, get_user_by_email, find_user, found_user,
}
use websocket_challenge.Api.{
  Request, World, refuse, refresh_handler, refresh_with, check_token, rotate, open_session,
  store_session, generate_token, generate_fingerprint, create_refresh_token,
}
use websocket_challenge.Api.Signup.{
  signup_handler, check_fields, check_users, unless_taken, taken, store_account, created,
  first_session,
}
use websocket_challenge.Api.Service.{
  Call, signs_up, refreshes, cleans, clean_tokens, serve, serve_all, after, IsSound,
  refresh_handler-serve_all,
}
use websocket_challenge.Tests.Accounts.{toy, visit, calm, bob, first_visit}

abbrev calls : List Call
calls = signs_up first_visit (some bob) visit ∷ cleans true 15 ∷ []

abbrev next_day : World
next_day = record calm { now = 20; raw = some (codes "newer"); new_id = 3 }

abbrev return_visit : Request
return_visit = record visit { refresh_cookie = some (codes "new") }

refresh_handler-serve_all_example :
    let s0 = after toy (λ s. s) (λ s. true) calls in
    let s = serve toy (λ s. s) (λ s. true) (refreshes next_day return_visit) s0 in
    IsSound toy (λ s. s) (λ s. true) s0
    × IsSound toy (λ s. s) (λ s. true) s
    × (refresh_handler toy next_day return_visit s.tokens ≡ (s.tokens, refuse 500))
unfolding serve serve_all signup_handler check_fields check_users unless_taken taken store_account
    created first_session create_user get_user_by_username get_user_by_email found_user find_user
    refresh_handler refresh_with check_token rotate open_session store_session generate_token
    generate_fingerprint create_refresh_token get_token_by_hash found_token find_token revoke_token
    revoke_row save_refresh_token clean_tokens delete_expired_tokens text_dec trim_space trim_left
refresh_handler-serve_all_example =
    refresh_handler-serve_all toy (λ s. s) (λ s. true) calls next_day next_day return_visit
      return_visit (codes "new") refl refl refl refl
