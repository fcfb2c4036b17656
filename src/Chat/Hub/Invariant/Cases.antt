-- ===== src/Chat/Hub/Invariant/Cases.antt =====
-- The register and unregister cases as a whole: what they change, and that they end.
use websocket_challenge.Base.{
  ℕ, ◌≡◌, ◌<◌, ◌≤◌, ◌⊎◌, inl, inr, refl, ap, true, false, not, ◌&&◌, Option, none, some, List, [],
  ◌∷◌, ◌++◌, arith, ◌==◌, if◌then◌else◌, Option-cases, Text, ◌≟◌, lookup, lookup-insert, text_dec,
  contains, length,
}
use websocket_challenge.Messages.{Message}
use websocket_challenge.Chat.Hub.State.{Hub, ok, deadlocked, send_broadcast, broadcast_capacity}
use websocket_challenge.Chat.Hub.Sessions.{
  room_of, cleanup_client, replace_session, enter_room, announce_kick, announce_join,
  register_client, user_list_message, send_user_list, manage_subscription, handle_register,
  handle_unregister,
}
use websocket_challenge.Chat.Hub.Invariant.{is_session, IsHub}
use websocket_challenge.Chat.Hub.Invariant.Cleanup.{
  cleanup_client-IsHub, cleanup_client-client, cleanup_client-all_clients,
  cleanup_client-is_session,
}
use websocket_challenge.Chat.Hub.Invariant.Register.{
  IsHub-same, register_client-IsHub, replace_session-client,
}

-- Redis does not answer, or there is room in the channel: sending the user list does not block.
abbrev pub HasSpace : Option Text → Hub → Type 0
HasSpace users h = (users ≡ none) ⊎ (length h.broadcast < broadcast_capacity)

send_user_list-cases :
    (now : ℕ) (users : Option Text) (room_id : Text) (h : Hub)
    → HasSpace users h
    → (b : List Message) × (send_user_list now users room_id h ≡ ok (record h { broadcast = b }))
unfolding send_user_list send_broadcast
send_user_list-cases now none room_id h s = (h.broadcast, refl)
send_user_list-cases now (some u) room_id h (inl e) = absurd (ground arith)
send_user_list-cases now (some u) room_id h (inr l) =
    (h.broadcast ++ user_list_message now u room_id h ∷ [], ground arith)

cleanup_client-broadcast : (c : ℕ) (h : Hub) → (cleanup_client c h).broadcast ≡ h.broadcast
unfolding cleanup_client
cleanup_client-broadcast c h = ground arith

register_client-broadcast :
    (now c : ℕ) (h : Hub) → (register_client now c h).broadcast ≡ h.broadcast
unfolding register_client replace_session enter_room announce_kick announce_join
register_client-broadcast now c h =
    elim (Option-cases (lookup text_dec (h.client c).name h.all_clients)) [
      | inl e ↦ rw e (ground arith)
      | inr (old, e) ↦ rw e (ground (arith, cleanup_client-broadcast old h))
    ]

-- Where the hub is well formed there is nothing left to unsubscribe from.
pub manage_subscription-idle :
    (room_id : Text) (h : Hub) → IsHub h → manage_subscription room_id h ≡ h
unfolding manage_subscription
manage_subscription-idle room_id h v = ground (arith, v.subscribed room_id, v.nonempty room_id)

module _ (now c : ℕ) (h : Hub) (v : IsHub h) (opened : (h.client c).closed ≡ false)
    (fresh : is_session c h ≡ false) where
  register_client-all_clients :
      (n : Text)
      → lookup text_dec n (register_client now c h).all_clients
        ≡ (if (h.client c).name ≟ n then some c else lookup text_dec n h.all_clients)
  unfolding register_client announce_join announce_kick enter_room replace_session
  register_client-all_clients n =
      elim (Option-cases (lookup text_dec (h.client c).name h.all_clients)) [
        | inl e ↦ rw e (ground (arith, lookup-insert text_dec n (h.client c).name c h.all_clients))
        | inr (old, e) ↦ rw e (
            ground (
              arith,
              v.named (h.client c).name old e,
              v.opened old,
              cleanup_client-all_clients old h
                  (v.opened old (ground (arith, v.named (h.client c).name old e))) n,
              cleanup_client-client old h
                  (v.opened old (ground (arith, v.named (h.client c).name old e))) c,
              lookup-insert text_dec n (h.client c).name c (cleanup_client old h).all_clients,
            ))
      ]

  register_client_self : (register_client now c h).client c ≡ h.client c
  unfolding register_client announce_join announce_kick enter_room
  register_client_self = ground (arith, replace_session-client c h v fresh)

  register_client-replaced :
      (old : ℕ)
      → lookup text_dec (h.client c).name h.all_clients ≡ some old
      → ((register_client now c h).client old).closed ≡ true
  unfolding register_client announce_join announce_kick enter_room replace_session
  register_client-replaced old e = rw e (
      ground (
        arith,
        v.named (h.client c).name old e,
        cleanup_client-client old h (v.opened old (ground (arith, v.named (h.client c).name old e)))
            old,
      ))

-- The register case of an open client that is no session yet, in a well-formed hub and while the
-- user list can be sent, ends in a well-formed hub in which the client is the one session of its
-- name and a member of its room, a session that it replaces is closed, and the sessions of other
-- names are as before.
pub handle_register_lem :
    (now : ℕ) (users : Option Text) (c : ℕ) (h : Hub)
    → IsHub h
    → (h.client c).closed ≡ false
    → is_session c h ≡ false
    → HasSpace users h
    → (h' : Hub) × (handle_register now users c h ≡ ok h')
      × IsHub h'
      × ((n : Text)
          → lookup text_dec n h'.all_clients
            ≡ (if (h.client c).name ≟ n then some c else lookup text_dec n h.all_clients))
      × (contains (room_of (h.client c).room_id h') c ≡ true)
      × ((old : ℕ)
          → lookup text_dec (h.client c).name h.all_clients ≡ some old
          → (h'.client old).closed ≡ true)
unfolding handle_register
handle_register_lem now users c h v opened fresh s =
    let q = register_client now c h in
    let w = register_client-IsHub now c h v opened fresh in
    let (b, e) = send_user_list-cases now users (h.client c).room_id q (elim s [
      | inl n ↦ inl n
      | inr l ↦ inr (omega (arith, ap length (register_client-broadcast now c h)))
    ]) in
    let h' : Hub = record q { broadcast = b } in
    let named = register_client-all_clients now c h v opened fresh in
    (
      h',
      e,
      IsHub-same q b q.commands q.tasks w,
      named,
      ground (
        arith,
        w.members (h.client c).room_id c,
        register_client_self now c h v opened fresh,
        named (h.client c).name,
      ),
      register_client-replaced now c h v opened fresh,
    )

-- The unregister case of an open client, in a well-formed hub and while the user list can be sent,
-- ends in a well-formed hub in which the client is no session and the other sessions are as before.
pub handle_unregister_lem :
    (now : ℕ) (users : Option Text) (c : ℕ) (h : Hub)
    → IsHub h
    → (h.client c).closed ≡ false
    → HasSpace users h
    → (h' : Hub) × (handle_unregister now users c h ≡ ok h')
      × IsHub h'
      × ((d : ℕ) → is_session d h' ≡ (is_session d h && not (d == c)))
      × ((h'.client c).closed ≡ true)
unfolding handle_unregister
handle_unregister_lem now users c h v opened s =
    let q = cleanup_client c h in
    let w = cleanup_client-IsHub c h v in
    let (b, e) = send_user_list-cases now users (h.client c).room_id q (elim s [
      | inl n ↦ inl n
      | inr l ↦ inr (omega (arith, ap length (cleanup_client-broadcast c h)))
    ]) in
    let h' : Hub = record q { broadcast = b } in
    (
      h',
      rw (manage_subscription-idle (h.client c).room_id q w) e,
      IsHub-same q b q.commands q.tasks w,
      cleanup_client-is_session c h opened v,
      ground (arith, cleanup_client-client c h opened c),
    )

-- When the channel is full and Redis answers, both cases wait for ever: `Run` waits for `Run`.
pub handle_register_deadlock :
    (now : ℕ) (users : Text) (c : ℕ) (h : Hub)
    → broadcast_capacity ≤ length h.broadcast
    → (handle_register now (some users) c h ≡ deadlocked)
      × (handle_unregister now (some users) c h ≡ deadlocked)
unfolding handle_register handle_unregister send_user_list send_broadcast manage_subscription
handle_register_deadlock now users c h full = (
  ground (arith, ap length (register_client-broadcast now c h)),
  ground (arith, ap length (cleanup_client-broadcast c h)),
)
