-- ===== src/Chat/Hub/Replay.antt =====
-- `replayHistory`: what a client that has just registered receives.
use websocket_challenge.Base.{
  ℕ, ◌+◌, ◌≤◌, ◌≡◌, ◌≢◌, ◌<◌, ==_iff, length-append, length-reverse, refl, sym, ◌∙◌, ap, false, inl,
  List, [], ◌∷◌, ◌++◌, arith, length, map, reverse, append-nil, append_assoc,
}
use websocket_challenge.Messages.{StoredMessage}
use websocket_challenge.Repository.History.{Table}
use websocket_challenge.Chat.Hub.State.{◌>>=◌, Hub, ok, history, send_capacity, set_client}
use websocket_challenge.Chat.Hub.Worker.{send_row, send_rows, replay}

send_row-ok :
    (m : StoredMessage) (c : ℕ) (h : Hub)
    → (h.client c).closed ≡ false
    → length (h.client c).send < send_capacity
    → (h' : Hub) × (send_row m c h ≡ ok h')
      × ((h'.client c).send ≡ (h.client c).send ++ history m ∷ [])
      × ((h'.client c).closed ≡ false)
      × ((d : ℕ) → d ≢ c → h'.client d ≡ h.client d)
unfolding send_row
send_row-ok m c h opened space = (
  set_client c (record (h.client c) { send = (h.client c).send ++ history m ∷ [] }) h,
  ground (arith, opened),
  ground (arith, ==_iff c c),
  ground (arith, opened, ==_iff c c),
  λ d ne. ground (arith, ==_iff d c),
)

send_rows-ok :
    (ms : List StoredMessage) (c : ℕ) (h : Hub)
    → (h.client c).closed ≡ false
    → length (h.client c).send + length ms ≤ send_capacity
    → (h' : Hub) × (send_rows ms c h ≡ ok h')
      × ((h'.client c).send ≡ (h.client c).send ++ map history ms)
      × ((h'.client c).closed ≡ false)
      × ((d : ℕ) → d ≢ c → h'.client d ≡ h.client d)
unfolding send_rows
send_rows-ok [] c h opened space = (h, refl, sym (append-nil _), opened, λ d ne. refl)
send_rows-ok (m ∷ ms) c h opened space =
    let (g, e, s, o, others) = send_row-ok m c h opened (omega arith) in
    let fits : length (g.client c).send + length ms ≤ send_capacity =
      omega (arith, ap length s, length-append (h.client c).send (history m ∷ [])) in
    let (h', e', s', o', others') = send_rows-ok ms c g o fits in
    (
      h',
      ap (λ r. r >>= send_rows ms c) e ∙ e',
      s' ∙ ap (λ xs. xs ++ map history ms) s ∙ append_assoc (h.client c).send (history m ∷ []) _,
      o',
      λ d ne. others' d ne ∙ others d ne,
    )

-- Replaying rows to an open client with room for them all in its channel ends: the channel then
-- holds what it held and the rows behind it, from the last to the first; the client stays open,
-- and the other clients are as before.
pub replay-delivers :
    (rows : Table) (c : ℕ) (h : Hub)
    → (h.client c).closed ≡ false
    → length (h.client c).send + length rows ≤ send_capacity
    → (h' : Hub) × (replay (inl rows) c h ≡ ok h')
      × ((h'.client c).send ≡ (h.client c).send ++ map history (reverse rows))
      × ((h'.client c).closed ≡ false)
      × ((d : ℕ) → d ≢ c → h'.client d ≡ h.client d)
unfolding replay
replay-delivers rows c h opened space =
    send_rows-ok (reverse rows) c h opened (omega (arith, length-reverse rows))
