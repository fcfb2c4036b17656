-- ===== src/Chat/Hub/Runs/Panics.antt =====
-- The cases of `Run`, in one go, are sequences of steps; and a sequence that makes the hub panic,
-- since it sends to a client that it looked up before it gave the lock back.
use websocket_challenge.Base.{
  ℕ, ◌≡◌, inl, inr, refl, subst, sym, false, Option, none, some, arith, ==_iff, if◌then◌else◌,
  Bool-cases, Text,
}
use websocket_challenge.Chat.Hub.State.{Hub, ok, command, unsubscribe}
use websocket_challenge.Chat.Hub.Sessions.{
  leave_room, drop_session, after_lock, close_client, cleanup_client, manage_subscription,
  user_list_message, send_user_list, handle_unregister,
}
use websocket_challenge.Chat.Hub.Invariant.{is_session, IsHub}
use websocket_challenge.Chat.Hub.Invariant.Cleanup.{
  cleanup_client_closed, cleanup_client-is_session,
}
use websocket_challenge.Chat.Hub.Runs.{
  after_unlock, locks, issues, closes, manages, sends, Reach, here, next,
}
use websocket_challenge.Chat.Hub.Runs.Parts.{ok-injective}

-- `cleanupClient` in one go, of a client that is open.
after_lock-cleanup_client :
    (c : ℕ) (h : Hub)
    → (h.client c).closed ≡ false
    → cleanup_client c h ≡ (
        let (g, flag) = after_lock c h in
        after_unlock c (if flag then command (unsubscribe (h.client c).room_id) g else g))
unfolding cleanup_client after_lock after_unlock leave_room drop_session close_client
after_lock-cleanup_client c h up = ground (arith, up)

after_lock-session :
    (c : ℕ) (h : Hub)
    → (h.client c).closed ≡ false
    → IsHub h
    → is_session c (after_lock c h).0 ≡ false
unfolding cleanup_client after_lock leave_room drop_session close_client
after_lock-session c h up v = ground (arith, cleanup_client-is_session c h up v c, ==_iff c c)

module _ (hash : Text → ℕ) where
  cleanup_client-Reach : (c : ℕ) (h : Hub) → IsHub h → Reach hash h (cleanup_client c h)
  cleanup_client-Reach c h v = elim (Bool-cases (h.client c).closed) [
    | inl done ↦ subst (Reach hash h) (sym (cleanup_client_closed c h done)) here
    | inr up ↦
        let g = (after_lock c h).0 in
        let locked : Reach hash h g = next here (locks c up refl) in
        let old = after_lock-session c h up v in
        subst (Reach hash h) (sym (after_lock-cleanup_client c h up))
          (elim (Bool-cases (after_lock c h).1) [
            | inl e ↦ rw e (next (next locked (issues _ refl)) (closes c old refl))
            | inr e ↦ rw e (next locked (closes c old refl))
          ])
  ]

  Reach-trans : {a b c : Hub} → Reach hash a b → Reach hash b c → Reach hash a c
  Reach-trans r here = r
  Reach-trans r (next s t) = next (Reach-trans r s) t

  send_user_list-Reach :
      (now : ℕ) (users : Option Text) (room_id : Text) (h h' : Hub)
      → send_user_list now users room_id h ≡ ok h'
      → Reach hash h h'
  unfolding send_user_list
  send_user_list-Reach now none room_id h h' e = subst (Reach hash h) (ok-injective h h' e) here
  send_user_list-Reach now (some u) room_id h h' e =
      next here (sends (user_list_message now u room_id h) e)

  -- So is the unregister case, of any client.
  pub handle_unregister-Reach :
      (now : ℕ) (users : Option Text) (c : ℕ) (h h' : Hub)
      → IsHub h
      → handle_unregister now users c h ≡ ok h'
      → Reach hash h h'
  unfolding handle_unregister
  handle_unregister-Reach now users c h h' v e =
      let room_id = (h.client c).room_id in
      Reach-trans (next (cleanup_client-Reach c h v) (manages room_id refl)) (
        send_user_list-Reach now users room_id (manage_subscription room_id (cleanup_client c h)) h'
          e)
