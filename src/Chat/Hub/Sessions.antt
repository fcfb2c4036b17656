-- ===== src/Chat/Hub/Sessions.antt =====
-- `cleanupClient`, `manageSubscription`, `broadcastUserList`, and the register and unregister cases
-- of `Run`. `users` is the JSON list that the answer to `SMEMBERS` gives, if Redis answers.
use websocket_challenge.Base.{
  Dict, ℕ, ◌++◌, Bool, true, false, ◌&&◌, Option, none, some, List, [], ◌∷◌, ◌==◌, if◌then◌else◌,
  Text, codes, lookup, insert, erase, text_dec, contains,
}
use websocket_challenge.Messages.{Message, kick, system, user_list, marshal, blank}
use websocket_challenge.Chat.Hub.State.{
  s_add, s_rem, publish, subscribe, unsubscribe, replay_history, broadcast_user_list, Hub, Result,
  ok, set_client, command, spawn, users_key, global_signals, send_broadcast,
}

-- `delete(room, c)`
abbrev pub without : ℕ → List ℕ → List ℕ
without c [] = []
without c (d ∷ ds) = let rest = without c ds in if d == c then rest else d ∷ rest

abbrev pub is_empty {ℓ} : {A : Type ℓ} → List A → Bool
is_empty [] = true
is_empty (x ∷ xs) = false

-- `h.ActiveSubs[roomID]`
abbrev pub is_active : Text → Hub → Bool
is_active room_id h = elim (lookup text_dec room_id h.active_subs) [ none ↦ false | some b ↦ b ]

-- `h.AllClients[c.Name] == c`
abbrev pub holds : Option ℕ → ℕ → Bool
holds none c = false
holds (some d) c = d == c

-- The first half of the critical section of `cleanupClient`, with `shouldUnsubscribe`.
unfoldable pub leave_room : ℕ → Hub → Hub × Bool
leave_room c h =
    let room_id = (h.client c).room_id in
    elim (lookup text_dec room_id h.rooms) [
      | none ↦ (h, false)
      | some room ↦
          if is_empty (without c room)
          then (
            record h {
              rooms = erase text_dec room_id h.rooms;
              active_subs = erase text_dec room_id h.active_subs;
            },
            true,
          )
          else (record h { rooms = insert text_dec room_id (without c room) h.rooms }, false)
    ]

-- Its second half.
unfoldable pub drop_session : ℕ → Hub → Hub
drop_session c h =
    let name = (h.client c).name in
    if holds (lookup text_dec name h.all_clients) c
    then record h { all_clients = erase text_dec name h.all_clients }
    else h

-- `cleanupClient` up to the point where it gives the lock back, with `shouldUnsubscribe`.
unfoldable pub after_lock : ℕ → Hub → Hub × Bool
unfolding leave_room drop_session
after_lock c h =
    let (g, should_unsubscribe) =
      leave_room c (command (s_rem (users_key (h.client c).room_id) (h.client c).name) h) in
    (drop_session c g, should_unsubscribe)

-- The end of `cleanupClient`: the connection and `Send` are closed.
unfoldable pub close_client : ℕ → Hub → Hub
close_client c h = set_client c (record (h.client c) { closed = true }) h

unfoldable pub cleanup_client : ℕ → Hub → Hub
unfolding leave_room drop_session close_client
cleanup_client c h =
    let room_id = (h.client c).room_id in
    let (h₁, should_unsubscribe) =
      leave_room c (command (s_rem (users_key room_id) (h.client c).name) h) in
    let h₂ = drop_session c h₁ in
    let h₃ = if should_unsubscribe then command (unsubscribe room_id) h₂ else h₂ in
    if (h.client c).closed then h else close_client c (spawn (broadcast_user_list room_id) h₃)

-- A missing room has length 0.
abbrev pub room_of : Text → Hub → List ℕ
room_of room_id h = elim (lookup text_dec room_id h.rooms) [ none ↦ [] | some room ↦ room ]

unfoldable pub manage_subscription : Text → Hub → Hub
manage_subscription room_id h =
    if is_empty (room_of room_id h) && is_active room_id h
    then record (command (unsubscribe room_id) h) {
      active_subs = erase text_dec room_id h.active_subs;
    }
    else h

-- The message of `broadcastUserList`.
unfoldable pub user_list_message : ℕ → Text → Text → Hub → Message
user_list_message now users room_id h = record blank {
  room_id = room_id;
  sender = codes "SYSTEM";
  content = users;
  kind = user_list;
  timestamp = now;
  sender_server_id = h.server_id;
}

-- `broadcastUserList`, called by `Run` itself.
unfoldable pub send_user_list : ℕ → Option Text → Text → Hub → Result
send_user_list now none room_id h = ok h
send_user_list now (some users) room_id h = send_broadcast (user_list_message now users room_id h) h

-- The first step of the register case: a session of the same name is cleaned up.
unfoldable pub replace_session : Option ℕ → Hub → Hub
replace_session none h = h
replace_session (some old) h = cleanup_client old h

-- The critical section of the register case.
unfoldable pub enter_room : ℕ → Hub → Hub
enter_room c h =
    let room_id = (h.client c).room_id in
    let room = room_of room_id h in
    let h₁ = if is_active room_id h then h else record (command (subscribe room_id) h) {
      active_subs = insert text_dec room_id true h.active_subs;
    } in
    record h₁ {
      all_clients = insert text_dec (h.client c).name c h.all_clients;
      rooms = insert text_dec room_id (if contains room c then room else room ++ c ∷ []) h.rooms;
    }

unfoldable pub announce_kick : ℕ → Hub → Hub
announce_kick c h =
    command
      (publish global_signals (
        marshal (record blank {
          kind = kick;
          sender = (h.client c).name;
          sender_server_id = h.server_id;
        })))
      h

unfoldable pub announce_join : ℕ → ℕ → Hub → Hub
announce_join now c h =
    command
      (publish (h.client c).room_id (
        marshal (record blank {
          room_id = (h.client c).room_id;
          sender = codes "SYSTEM";
          content = (h.client c).name ++ codes " joined the chat";
          kind = system;
          timestamp = now;
        })))
      h

-- The register case up to its last call.
unfoldable pub register_client : ℕ → ℕ → Hub → Hub
register_client now c h =
    let h₁ = replace_session (lookup text_dec (h.client c).name h.all_clients) h in
    let h₂ =
      command (s_add (users_key (h.client c).room_id) (h.client c).name) (announce_kick c h₁) in
    announce_join now c (spawn (replay_history c) (enter_room c h₂))

-- The case `client := <-h.Register`.
unfoldable pub handle_register : ℕ → Option Text → ℕ → Hub → Result
handle_register now users c h =
    send_user_list now users (h.client c).room_id (register_client now c h)

-- The case `client := <-h.Unregister`.
unfoldable pub handle_unregister : ℕ → Option Text → ℕ → Hub → Result
handle_unregister now users c h =
    let room_id = (h.client c).room_id in
    send_user_list now users room_id (manage_subscription room_id (cleanup_client c h))

-- `for _, client := range h.AllClients`
unfoldable pub close_all : Dict Text ℕ → Hub → Hub
close_all [] h = h
close_all ((_, c) ∷ rest) h = close_all rest (cleanup_client c h)

-- The case `<-h.Quit`, after which `Run` returns.
unfoldable pub handle_quit : Hub → Hub
unfolding close_all
handle_quit h = close_all h.all_clients h
