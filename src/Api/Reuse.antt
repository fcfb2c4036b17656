-- ===== src/Api/Reuse.antt =====
-- A refresh token opens one session: after it has been used, or its user has logged out, it is
-- not found again.
pub mod Hashes
use websocket_challenge.Base.{
  ℕ, ◌≡◌, ◌⊎◌, inl, inr, refl, sym, ◌∙◌, ap, Bool, true, false, not, ◌&&◌, ◌||◌, Option, none, some,
  [], ◌∷◌, ◌++◌, arith, ◌==◌, ==_iff, map, Bool-cases, Option-cases, Text, ◌≟◌,
}
use websocket_challenge.Repository.Tokens.{
  RefreshToken, not_found, TokenTable, has_token, find_token, is_live, found_token,
  get_token_by_hash, save_refresh_token, revoke_row, revoke_token,
}
use websocket_challenge.Repository.Tokens.Rotation.{UniqueHashes, find-dead, revoke_token-rows}
use websocket_challenge.Repository.Users.{User}
use websocket_challenge.Api.Credentials.{Crypto, generate_token, create_refresh_token}
use websocket_challenge.Api.Handlers.{
  Request, World, refuse, store_session, open_session, rotate, check_token, refresh_handler,
  refresh_with, forget_cookie, revoke_found, logout_handler,
}
use websocket_challenge.Api.Reuse.Hashes.{
  find-append, find-has, has-revoked, has-distinct, revoke_done,
}

module _ (x : Crypto) where
  -- A hash that some row has, but no live one, stays dead when a session is opened.
  store_session-dead :
      (hash : Text) (w : World) (user : Option User) (token : Text) (made : Text × RefreshToken)
      (t : TokenTable)
      → has_token (λ k. k.token_hashed ≟ hash) t ≡ true
      → find_token (is_live hash) t ≡ none
      → find_token (is_live hash) (store_session x w 200 user token made t).0 ≡ none
  unfolding store_session save_refresh_token
  store_session-dead hash w user token made t there dead = ground (
    arith,
    there,
    dead,
    has-distinct hash made.1.token_hashed w.new_id t there,
    find-append (is_live hash) t
        (record made.1 { id = w.new_id; is_revoked = false; created_at = w.now }) dead,
  )

  pub open_session-cases :
      (w : World) (user : Option User) (user_id : ℕ) (r : Request) (t : TokenTable)
      → (open_session x w user user_id r t ≡ (t, refuse 500))
        ⊎ ((token : Text) × (made : Text × RefreshToken) × (create_refresh_token x w.raw w.now
                user_id r.user_agent r.ip
              ≡ some made)
            × (open_session x w user user_id r t ≡ store_session x w 200 user token made t))
  unfolding open_session
  open_session-cases w user user_id r t =
      elim (Option-cases (generate_token x w.now user_id r.user_agent r.ip)) [
        | inl e ↦ inl (ground (arith, e))
        | inr (token, e) ↦
            elim (Option-cases (create_refresh_token x w.raw w.now user_id r.user_agent r.ip)) [
              | inl e' ↦ inl (ground (arith, e, e'))
              | inr (made, e') ↦ inr (token, made, e', ground (arith, e, e'))
            ]
      ]

  open_session-dead :
      (hash : Text) (w : World) (user : Option User) (user_id : ℕ) (r : Request) (t : TokenTable)
      → has_token (λ k. k.token_hashed ≟ hash) t ≡ true
      → find_token (is_live hash) t ≡ none
      → find_token (is_live hash) (open_session x w user user_id r t).0 ≡ none
  open_session-dead hash w user user_id r t there dead =
      elim (open_session-cases w user user_id r t) [
        | inl e ↦ ap (λ a. find_token (is_live hash) a.0) e ∙ dead
        | inr (token, made, _, e) ↦
            ap (λ a. find_token (is_live hash) a.0) e
            ∙ store_session-dead hash w user token made t there dead
      ]

  rotate-ok :
      (w : World) (k : RefreshToken) (r : Request) (t : TokenTable)
      → (rotate x w k r t).1.status ≡ 200
      → ((revoke_token true k.id t).1 ≡ none)
        × (rotate x w k r t ≡ open_session x w none k.user_id r (revoke_token true k.id t).0)
  unfolding rotate revoke_token
  rotate-ok w k r t ok = elim (Bool-cases w.revoke_up) [
    | inr down ↦ ground (arith, ok, down)
    | inl up ↦ (ground (arith, ok, up), ground (arith, ok, up))
  ]

  rotate-dead :
      (hash : Text) (w : World) (found k : RefreshToken) (r : Request) (t : TokenTable)
      → UniqueHashes t
      → find_token (is_live hash) t ≡ some found
      → k.id ≡ found.id
      → (rotate x w k r t).1.status ≡ 200
      → find_token (is_live hash) (rotate x w k r t).0 ≡ none
  rotate-dead hash w found k r t u e same ok =
      let (done, opened) = rotate-ok w k r t ok in
      let rows : TokenTable = map (revoke_row (λ y. y.id == found.id)) t in
      let revoked : (revoke_token true k.id t).0 ≡ rows =
        revoke_token-rows k.id t done ∙ ap (λ i. map (revoke_row (λ y. y.id == i)) t) same in
      ap (λ a. find_token (is_live hash) a.0)
        (opened ∙ ap (open_session x w none k.user_id r) revoked)
      ∙ open_session-dead hash w none k.user_id r rows (has-revoked hash _ t found e)
          (find-dead hash found t u e)

  check_token-ok :
      (w : World) (k : RefreshToken) (r : Request) (t : TokenTable)
      → (check_token x w (inl k) r t).1.status ≡ 200
      → check_token x w (inl k) r t ≡ rotate x w k r t
  unfolding check_token
  check_token-ok w k r t ok = ground (arith, ok)

  check_answer-dead :
      (hash : Text) (w : World) (o : Option RefreshToken) (r : Request) (t : TokenTable)
      → UniqueHashes t
      → find_token (is_live hash) t ≡ o
      → (check_token x w (found_token x.scan_ip o) r t).1.status ≡ 200
      → find_token (is_live hash) (check_token x w (found_token x.scan_ip o) r t).0 ≡ none
  unfolding found_token check_token
  check_answer-dead hash w none r t u e ok = e
  check_answer-dead hash w (some found) r t u e ok =
      let k : RefreshToken = record found {
        client_ip = x.scan_ip found.client_ip;
        is_revoked = false;
      } in
      let opened = check_token-ok w k r t ok in
      ap (λ a. find_token (is_live hash) a.0) opened
      ∙ rotate-dead hash w found k r t u e refl (ap (λ a. a.1.status) (sym opened) ∙ ok)

  refresh_cookie :
      (w : World) (r : Request) (value : Text) (t : TokenTable)
      → r.refresh_cookie ≡ some value
      → refresh_handler x w r t
        ≡ check_token x w (get_token_by_hash x.scan_ip w.lookup_up (x.sha value) t) r t
  unfolding refresh_handler refresh_with
  refresh_cookie w r value t c = ap (λ o. refresh_with x w o r t) c

  get_token-up :
      (up : Bool) (w : World) (hash : Text) (r : Request) (t : TokenTable)
      → (check_token x w (get_token_by_hash x.scan_ip up hash t) r t).1.status ≡ 200
      → (up ≡ true)
        × (get_token_by_hash x.scan_ip up hash t
            ≡ found_token x.scan_ip (find_token (is_live hash) t))
  unfolding get_token_by_hash check_token
  get_token-up true w hash r t ok = (refl, refl)
  get_token-up false w hash r t ok = ground (arith, ok)

  refused :
      (w : World) (r : Request) (value : Text) (t : TokenTable)
      → r.refresh_cookie ≡ some value
      → w.lookup_up ≡ true
      → find_token (is_live (x.sha value)) t ≡ none
      → refresh_handler x w r t ≡ (t, refuse 500)
  unfolding get_token_by_hash check_token found_token
  refused w r value t c up dead =
      refresh_cookie w r value t c
      ∙ ap (λ b. check_token x w (get_token_by_hash x.scan_ip b (x.sha value) t) r t) up
      ∙ ap (λ o. check_token x w (found_token x.scan_ip o) r t) dead

  -- On a table with unique hashes: once the refresh handler has answered a cookie with a session,
  -- every later request with that cookie, while the lookup works, is refused with status 500 and
  -- changes nothing.
  pub refresh_handler-once :
      (w w' : World) (r r' : Request) (value : Text) (t : TokenTable)
      → UniqueHashes t
      → r.refresh_cookie ≡ some value
      → r'.refresh_cookie ≡ some value
      → w'.lookup_up ≡ true
      → (refresh_handler x w r t).1.status ≡ 200
      → let t' = (refresh_handler x w r t).0 in refresh_handler x w' r' t' ≡ (t', refuse 500)
  refresh_handler-once w w' r r' value t u c c' up ok =
      let first = refresh_cookie w r value t c in
      let ok' = ap (λ a. a.1.status) (sym first) ∙ ok in
      let (_, answer) = get_token-up w.lookup_up w (x.sha value) r t ok' in
      let first' = first ∙ ap (λ g. check_token x w g r t) answer in
      refused w' r' value _ c' up (
        ap (λ a. find_token (is_live (x.sha value)) a.0) first'
        ∙ check_answer-dead (x.sha value) w _ r t u refl (ap (λ a. a.1.status) (sym first') ∙ ok))

  revoke_found-dead :
      (hash : Text) (o : Option RefreshToken) (t : TokenTable)
      → UniqueHashes t
      → find_token (is_live hash) t ≡ o
      → find_token (is_live hash) (revoke_found x true (found_token x.scan_ip o) t) ≡ none
  unfolding revoke_found found_token
  revoke_found-dead hash none t u e = e
  revoke_found-dead hash (some found) t u e =
      ap (find_token (is_live hash))
        (revoke_token-rows found.id t (revoke_done found.id t (find-has hash t found e)))
      ∙ find-dead hash found t u e

  logout_cookie :
      (w : World) (r : Request) (value : Text) (t : TokenTable)
      → r.refresh_cookie ≡ some value
      → w.lookup_up ≡ true
      → w.revoke_up ≡ true
      → (logout_handler x w r t).0
        ≡ revoke_found x true (found_token x.scan_ip (find_token (is_live (x.sha value)) t)) t
  unfolding logout_handler forget_cookie get_token_by_hash
  logout_cookie w r value t c up up' =
      ap (λ o. forget_cookie x w o t) c
      ∙ ap (λ b. revoke_found x w.revoke_up (get_token_by_hash x.scan_ip b (x.sha value) t) t) up
      ∙ ap (λ b. revoke_found x b (get_token_by_hash x.scan_ip true (x.sha value) t) t) up'

  -- After a log-out with a cookie, on a table with unique hashes and while the database works, the
  -- cookie's token is found no more.
  pub logout_handler-final :
      (w : World) (r : Request) (value : Text) (t : TokenTable)
      → UniqueHashes t
      → r.refresh_cookie ≡ some value
      → w.lookup_up ≡ true
      → w.revoke_up ≡ true
      → let t' = (logout_handler x w r t).0 in
        get_token_by_hash x.scan_ip true (x.sha value) t' ≡ inr not_found
  unfolding logout_handler get_token_by_hash
  logout_handler-final w r value t u c up up' =
      ap (λ a. found_token x.scan_ip (find_token (is_live (x.sha value)) a))
        (logout_cookie w r value t c up up')
      ∙ ap (found_token x.scan_ip)
          (revoke_found-dead (x.sha value) (find_token (is_live (x.sha value)) t) t u refl)
