-- ===== src/Legacy/Parsing/Rejoin.antt =====
-- What becomes of legacy/challenge-6/content-parsing.go when a client rejoins under its name.
use websocket_challenge.Base.{
  ℕ, ◌+◌, ◌≤◌, ◌<◌, ◌≡◌, refl, ap, ◌∙◌, ◌++◌, true, false, some, List, [], ◌∷◌, length,
  length-append, lt→ltb, ◌==◌, ==_iff, Text, lookup, codes, lookup-insert, insert, erase, text_dec,
  arith,
}
use websocket_challenge.Legacy.Parsing.{
  user_list, Message, Hub, ok, panicked, ◌>>=◌, set_client, close_send, send, broadcast_user_list,
  cleanup_found, cleanup_client, replace_session, send_history, handle_register, handle_unregister,
  unregister_found,
}

-- What the loop over the history changes: the channel of one client.
record Replayed (c : ℕ) (h g : Hub) : Type 0 where
  clients : g.clients ≡ h.clients
  broadcast : g.broadcast ≡ h.broadcast
  names : (d : ℕ) → (g.client d).name ≡ (h.client d).name
  opened : (d : ℕ) → (g.client d).closed ≡ (h.client d).closed

send_history-ends :
    (ms : List Message) (c : ℕ) (h : Hub)
    → (h.client c).closed ≡ false
    → length (h.client c).send + length ms ≤ 256
    → (g : Hub) × (send_history ms c h ≡ ok g) × Replayed c h g
unfolding send_history send
send_history-ends [] c h opened space =
    (h, refl, record { clients = refl; broadcast = refl; names = λ d. refl; opened = λ d. refl })
send_history-ends (m ∷ ms) c h opened space =
    let h₁ = set_client c (record (h.client c) { send = (h.client c).send ++ m ∷ [] }) h in
    let same : h₁.client c ≡ record (h.client c) { send = (h.client c).send ++ m ∷ [] } =
      ground (arith, ==_iff c c) in
    let e : send m c h ≡ ok h₁ = rw (opened, lt→ltb _ _ room) refl in
    let (g, e', s) =
      send_history-ends ms c h₁ (rw same opened)
        (rw same (omega (arith, space, length-append (h.client c).send (m ∷ [])))) in
    (
      g,
      ap (λ r. r >>= send_history ms c) e ∙ e',
      record {
        clients = s.clients;
        broadcast = s.broadcast;
        names = λ d. s.names d ∙ ground (arith, ==_iff d c);
        opened = λ d. s.opened d ∙ ground (arith, ==_iff d c);
      },
    )
  where
    room : length (h.client c).send < 256
    room = omega (arith, space)

-- The unregister case of a client whose channel is closed, while its name is held.
closed_again :
    (users : Text) (c d : ℕ) (h : Hub)
    → lookup text_dec (h.client d).name h.clients ≡ some c
    → (h.client d).closed ≡ true
    → handle_unregister users d h ≡ panicked
unfolding handle_unregister unregister_found cleanup_client cleanup_found close_send
closed_again users c d h held shut =
    ap (λ o. unregister_found o users d h) held
    ∙ ap (λ o. cleanup_found o d h >>= broadcast_user_list users) held
    ∙ rw shut refl

replace_session-closes :
    (name : Text) (d : ℕ) (h : Hub)
    → lookup text_dec name h.clients ≡ some d
    → (h.client d).closed ≡ false
    → replace_session (lookup text_dec name h.clients) name h
      ≡ ok (record (set_client d (record (h.client d) { closed = true }) h) {
        clients = erase text_dec name h.clients;
      })
unfolding replace_session close_send
replace_session-closes name d h held up = ap (λ o. replace_session o name h) held ∙ rw up refl

-- A client that joins under the name of an open session takes its place; when the read pump of the
-- old session then ends, as it does once that client leaves, the unregister case closes the channel
-- of the old session a second time, which panics and ends the server.
pub handle_unregister-panics :
    (users remaining : Text) (c d : ℕ) (h : Hub)
    → lookup text_dec (h.client c).name h.clients ≡ some d
    → (h.client d).name ≡ (h.client c).name
    → (d == c) ≡ false
    → (h.client d).closed ≡ false
    → (h.client c).closed ≡ false
    → length (h.client c).send + length h.history ≤ 256
    → length h.broadcast < 256
    → (g : Hub) × (handle_register users c h ≡ ok g)
      × (lookup text_dec (h.client c).name g.clients ≡ some c)
      × (handle_unregister remaining d g ≡ panicked)
unfolding handle_register handle_unregister replace_session
handle_unregister-panics users remaining c d h held named differ up opened space room =
    let name = (h.client c).name in
    let h₁ : Hub = record (set_client d (record (h.client d) { closed = true }) h) {
      clients = erase text_dec name h.clients;
    } in
    let h₂ : Hub = record h₁ { clients = insert text_dec name c h₁.clients } in
    let same : h₂.client c ≡ h.client c = ground (arith, differ, ==_iff c d, ==_iff d c) in
    let old : (h₂.client d).closed ≡ true = ground (arith, ==_iff d d) in
    let (g, e, s) = send_history-ends h.history c h₂ (rw same opened) (rw same space) in
    let k : Hub = record g {
      broadcast =
          g.broadcast
          ++ record { sender = codes "SYSTEM"; target = []; kind = user_list; content = users }
            ∷ [];
    } in
    let sends : broadcast_user_list users g ≡ ok k =
      unfold broadcast_user_list in rw (s.broadcast, lt→ltb _ _ room) refl in
    let found : lookup text_dec name g.clients ≡ some c =
      ground (arith, s.clients, lookup-insert text_dec name name c h₁.clients) in
    (
      k,
      ap
            (λ r. r >>= λ x.
              send_history x.history c (record x { clients = insert text_dec name c x.clients })
              >>= broadcast_user_list users)
            (replace_session-closes name d h held up)
          ∙ ap (λ r. r >>= broadcast_user_list users) e
          ∙ sends,
      found,
      closed_again remaining c d k
          (ap (λ n. lookup text_dec n g.clients) (s.names d ∙ ground (arith, ==_iff d d, named))
            ∙ found)
          (s.opened d ∙ old),
    )
