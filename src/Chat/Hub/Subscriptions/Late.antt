-- ===== src/Chat/Hub/Subscriptions/Late.antt =====
-- The listener cleans a client up in a goroutine of its own, which gives the lock back before it
-- ends the subscription, so the register case can run in between.
use websocket_challenge.Base.{
  ℕ, ◌≡◌, ◌∙◌, ap, subst, true, false, Option, none, some, [], ◌∷◌, arith, ==_iff, Text, lookup,
  lookup-insert, text_dec,
}
use websocket_challenge.Chat.Hub.State.{
  Hub, ok, s_add, unsubscribe, command, users_key, send_broadcast,
}
use websocket_challenge.Chat.Hub.Sessions.{
  is_active, leave_room, drop_session, after_lock, replace_session, enter_room, announce_kick,
  announce_join, register_client, send_user_list, handle_register,
}
use websocket_challenge.Chat.Hub.Races.{replace_session-room_id}
use websocket_challenge.Chat.Hub.Subscriptions.{is_subscribed, run_commands-append}

enter_room-active : (c : ℕ) (h : Hub) → is_active (h.client c).room_id (enter_room c h) ≡ true
unfolding enter_room
enter_room-active c h =
    ground
      (arith, lookup-insert text_dec (h.client c).room_id (h.client c).room_id true h.active_subs)

register_client-active :
    (now c : ℕ) (h : Hub) → is_active (h.client c).room_id (register_client now c h) ≡ true
unfolding register_client announce_kick announce_join
register_client-active now c h =
    let o = lookup text_dec (h.client c).name h.all_clients in
    subst (λ r. is_active r (register_client now c h) ≡ true) (replace_session-room_id o c h)
      (enter_room-active c (
        command (s_add (users_key (h.client c).room_id) (h.client c).name)
          (announce_kick c (replace_session o h))))

handle_register-active :
    (now : ℕ) (users : Option Text) (c : ℕ) (h h' : Hub)
    → handle_register now users c h ≡ ok h'
    → is_active (h.client c).room_id h' ≡ true
unfolding handle_register send_user_list send_broadcast
handle_register-active now none c h h' e = ground (arith, e, register_client-active now c h)
handle_register-active now (some u) c h h' e = ground (arith, e, register_client-active now c h)

after_lock-last :
    (c : ℕ) (h : Hub)
    → lookup text_dec (h.client c).room_id h.rooms ≡ some (c ∷ [])
    → ((after_lock c h).1 ≡ true) × ((after_lock c h).0.client ≡ h.client)
unfolding after_lock leave_room drop_session
after_lock-last c h alone = ground (arith, alone, ==_iff c c)

-- If the goroutine has taken the last client out of a room, and another client registers in that
-- room before the goroutine ends the subscription, then the room stays in `ActiveSubs` but the
-- server hears nothing of it.
pub late_unsubscribe :
    (now : ℕ) (users : Option Text) (c d : ℕ) (h h' : Hub)
    → lookup text_dec (h.client c).room_id h.rooms ≡ some (c ∷ [])
    → (h.client d).room_id ≡ (h.client c).room_id
    → let (g, should_unsubscribe) = after_lock c h in
      handle_register now users d g ≡ ok h'
      → (should_unsubscribe ≡ true)
        × (is_active (h.client c).room_id h' ≡ true)
        × (is_subscribed (h.client c).room_id (command (unsubscribe (h.client c).room_id) h')
            ≡ false)
late_unsubscribe now users c d h h' alone same e =
    let (gone, clients) = after_lock-last c h alone in
    let room_id = (h.client c).room_id in
    (
      gone,
      subst (λ r. is_active r h' ≡ true) (ap (λ f. (f d).room_id) clients ∙ same)
          (handle_register-active now users d (after_lock c h).0 h' e),
      ground (arith, run_commands-append h'.commands (unsubscribe room_id) room_id false),
    )
