-- ===== src/Legacy/Chat/Joining.antt =====
-- The register and unregister cases of legacy/challenge-7/chat.go, of a client that joins.
use websocket_challenge.Base.{
  ℕ, ◌+◌, ◌≤◌, ◌≡◌, refl, sym, ap, ◌∙◌, ◌++◌, true, false, none, some, List, [], length, ◌==◌,
  ==_iff, if◌then◌else◌, Text, lookup, lookup-insert, lookup-erase, insert, erase, text_dec, arith,
  All,
}
use websocket_challenge.Legacy.Chat.{
  Message, Client, Hub, ok, ◌>>=◌, close_send, broadcast_user_list, cleanup_found, cleanup_client,
  send_history, handle_register, handle_unregister, unregister_found, set_client,
}
use websocket_challenge.Legacy.Chat.History.{
  is_public, handle_broadcasts, AllOpen, Replayed, chats, handle_broadcasts_lem, send_history_lem,
}
use websocket_challenge.Legacy.Chat.History.Newest.{newest, length-newest-le}

-- The session that a register case leaves, where nobody holds the name.
entered : ℕ → Text → Text → ℕ → Hub → Hub
entered now users name c h =
    broadcast_user_list now users (record h { clients = insert text_dec name c h.clients })

-- What the register case makes of a client, and what it leaves alone.
record Registered (c : ℕ) (h g : Hub) : Type 0 where
  client :
      (d : ℕ)
      → g.client d ≡ (
          if d == c
          then record (h.client c) { send = (h.client c).send ++ h.history }
          else h.client d)
  session : g.clients ≡ insert text_dec (h.client c).name c h.clients

entered-Registered :
    (now : ℕ) (users : Text) (c : ℕ) (h g : Hub)
    → Replayed h.history c h g
    → Registered c h (entered now users (h.client c).name c g)
unfolding entered broadcast_user_list
entered-Registered now users c h g s = record {
  client = λ d. ground (arith, s.client d);
  session = ground (arith, ap (insert text_dec (h.client c).name c) s.clients);
}

-- Once the session of that name is gone, if there was one.
register_after :
    (now : ℕ) (users : Text) (c : ℕ) (h h₁ : Hub)
    → cleanup_found (h.client c).name (lookup text_dec (h.client c).name h.clients) h ≡ ok h₁
    → h₁.client c ≡ h.client c
    → (h.client c).closed ≡ false
    → length (h.client c).send + length h₁.history ≤ 256
    → (g : Hub) × (handle_register now users c h ≡ ok g) × Registered c h₁ g
unfolding handle_register entered
register_after now users c h h₁ e same opened space =
    let (g, e₂, s) = send_history_lem h₁.history c h₁ (rw same opened) (rw same space) in
    let name = (h.client c).name in
    (
      entered now users (h₁.client c).name c g,
      ap (λ r. r >>= λ x. send_history x.history c x >>= λ y. ok (entered now users name c y)) e
          ∙ ap (λ r. r >>= λ y. ok (entered now users name c y)) e₂
          ∙ ap (λ (cl : Client). ok (entered now users cl.name c g)) (sym same),
      entered-Registered now users c h₁ g s,
    )

register_fresh :
    (now : ℕ) (users : Text) (c : ℕ) (h : Hub)
    → (h.client c).closed ≡ false
    → length (h.client c).send + length h.history ≤ 256
    → lookup text_dec (h.client c).name h.clients ≡ none
    → (g : Hub) × (handle_register now users c h ≡ ok g) × Registered c h g
unfolding cleanup_found
register_fresh now users c h opened space free =
    register_after now users c h h (ap (λ o. cleanup_found (h.client c).name o h) free) refl opened
      space

module _ (c : ℕ) (h g : Hub) (s : Registered c h g) where
  replayed : (g.client c).send ≡ (h.client c).send ++ h.history
  replayed = ground (arith, s.client c)

  stays_open : (g.client c).closed ≡ (h.client c).closed
  stays_open = ground (arith, s.client c)

  keeps_name : (d : ℕ) → (g.client d).name ≡ (h.client d).name
  keeps_name d = ground (arith, s.client d, ==_iff d c)

  found : lookup text_dec (h.client c).name g.clients ≡ some c
  found =
      ground
        (arith, s.session, lookup-insert text_dec (h.client c).name (h.client c).name c h.clients)

-- In a room of at most 20 messages of history and no closed session, the hub takes any run of
-- chat, system and user list messages, and then an open client with an empty channel and a name
-- that is free: no case panics or waits, the client is in the room under its name, and its channel
-- holds the newest 20 of the history and the chat messages of the run, in order.
pub late_joiner :
    (now : ℕ) (users : Text) (ms : List Message) (c : ℕ) (h : Hub)
    → All (λ m. is_public m.kind ≡ true) ms
    → AllOpen h.clients c h
    → length h.history ≤ 20
    → (h.client c).closed ≡ false
    → (h.client c).send ≡ []
    → lookup text_dec (h.client c).name h.clients ≡ none
    → (g : Hub) × ((handle_broadcasts ms h >>= handle_register now users c) ≡ ok g)
      × ((g.client c).send ≡ newest 20 (h.history ++ chats ms))
      × (lookup text_dec (h.client c).name g.clients ≡ some c)
late_joiner now users ms c h public o le opened empty free =
    let (h₁, e₁, s₁) = handle_broadcasts_lem ms c h public o le in
    let bound : length h₁.history ≤ 20 =
      rw s₁.history (length-newest-le 20 (h.history ++ chats ms)) in
    let (g, e₂, s₂) =
      register_fresh now users c h₁ (rw s₁.same opened) (rw (s₁.same, empty) (omega (arith, bound)))
        (rw (s₁.same, s₁.clients) free) in
    (
      g,
      ap (λ r. r >>= handle_register now users c) e₁ ∙ e₂,
      replayed c h₁ g s₂ ∙ rw (s₁.same, empty) s₁.history,
      ap (λ (cl : Client). lookup text_dec cl.name g.clients) (sym s₁.same) ∙ found c h₁ g s₂,
    )

unregister_held :
    (now : ℕ) (users : Text) (c d : ℕ) (h : Hub)
    → (h.client c).closed ≡ false
    → lookup text_dec (h.client d).name h.clients ≡ some c
    → (g : Hub) × (handle_unregister now users d h ≡ ok g)
      × ((g.client c).closed ≡ true)
      × (lookup text_dec (h.client d).name g.clients ≡ none)
unfolding handle_unregister cleanup_client broadcast_user_list
unregister_held now users c d h opened held =
    let name = (h.client d).name in
    let h₁ =
      set_client c (record (h.client c) { closed = true })
        (record h { clients = erase text_dec name h.clients }) in
    let e₁ : close_send c (record h { clients = erase text_dec name h.clients }) ≡ ok h₁ =
      unfold close_send in rw opened refl in
    (
      broadcast_user_list now users h₁,
      ap (λ o. unregister_found now users o d h) held
          ∙ ap (λ o. cleanup_found name o h >>= λ x. ok (broadcast_user_list now users x)) held
          ∙ ap (λ r. r >>= λ x. ok (broadcast_user_list now users x)) e₁,
      ground arith,
      ground (arith, lookup-erase text_dec name name h.clients),
    )

-- A client that joins under the name of an open session, its channel empty, replaces that
-- session; when the old session is then unregistered, as its read pump does on leaving, the hub
-- closes the channel of the new one, and no session is left under the name.
pub stale_unregister :
    (now later : ℕ) (users remaining : Text) (c d : ℕ) (h : Hub)
    → lookup text_dec (h.client c).name h.clients ≡ some d
    → (h.client d).name ≡ (h.client c).name
    → (d == c) ≡ false
    → (h.client d).closed ≡ false
    → (h.client c).closed ≡ false
    → (h.client c).send ≡ []
    → length h.history ≤ 20
    → (g : Hub) × ((handle_register now users c h >>= handle_unregister later remaining d) ≡ ok g)
      × ((g.client c).closed ≡ true)
      × (lookup text_dec (h.client c).name g.clients ≡ none)
unfolding cleanup_found close_send
stale_unregister now later users remaining c d h held named differ old opened empty le =
    let name = (h.client c).name in
    let h₁ =
      set_client d (record (h.client d) { closed = true })
        (record h { clients = erase text_dec name h.clients }) in
    let same : h₁.client c ≡ h.client c = ground (arith, differ, ==_iff c d, ==_iff d c) in
    let (h₂, e₂, s₂) =
      register_after now users c h h₁ (ap (λ o. cleanup_found name o h) held ∙ rw old refl) same
        opened (rw empty (omega (arith, le))) in
    let renamed : (h₂.client d).name ≡ name = keeps_name c h₁ h₂ s₂ d ∙ ground (arith, named) in
    let (g, e₃, closed, gone) =
      unregister_held later remaining c d h₂
        (stays_open c h₁ h₂ s₂ ∙ ap (λ (cl : Client). cl.closed) same ∙ opened)
        (ap (λ n. lookup text_dec n h₂.clients) (renamed ∙ ap (λ (cl : Client). cl.name) (sym same))
          ∙ found c h₁ h₂ s₂) in
    (
      g,
      ap (λ r. r >>= handle_unregister later remaining d) e₂ ∙ e₃,
      closed,
      ap (λ n. lookup text_dec n g.clients) (sym renamed) ∙ gone,
    )
