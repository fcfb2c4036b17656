-- ===== src/Chat/Hub/Subscriptions.antt =====
-- What Redis sends to this server: the channels that the commands subscribe to.
pub mod Late
use websocket_challenge.Base.{
  ℕ, ◌≡◌, ◌≢◌, ◌∙◌, ◌⊎◌, inl, inr, refl, sym, ap, Bool, true, false, not, ◌&&◌, ◌||◌, Option, none,
  some, List, [], ◌∷◌, ◌++◌, arith, ◌==◌, ==_iff, if◌then◌else◌, Bool-cases, Option-cases, Text,
  ◌≟◌, Dict, lookup, insert, erase, lookup-insert, lookup-erase, text_dec,
}
use websocket_challenge.Messages.{Payload}
use websocket_challenge.Chat.Hub.State.{
  Hub, Command, s_add, s_rem, publish, subscribe, unsubscribe, command, users_key, spawn,
  replay_history,
}
use websocket_challenge.Chat.Hub.Sessions.{
  is_active, is_empty, without, leave_room, drop_session, close_client, cleanup_client,
  manage_subscription, replace_session, enter_room, announce_kick, announce_join, register_client,
  room_of,
}

-- The effect of one command on the subscription to a channel.
abbrev pub effect : Command → Text → Bool → Bool
effect (subscribe s) r b = s ≟ r || b
effect (unsubscribe s) r b = if s ≟ r then false else b
effect _ r b = b

abbrev pub run_commands : List Command → Text → Bool → Bool
run_commands [] r b = b
run_commands (x ∷ xs) r b = run_commands xs r (effect x r b)

-- Whether the commands leave the server subscribed.
abbrev pub is_subscribed : Text → Hub → Bool
is_subscribed r h = run_commands h.commands r false

pub run_commands-append :
    (xs : List Command) (x : Command) (r : Text) (b : Bool)
    → run_commands (xs ++ x ∷ []) r b ≡ effect x r (run_commands xs r b)
run_commands-append [] x r b = refl
run_commands-append (y ∷ xs) x r b = run_commands-append xs x r (effect y r b)

-- The last client of a room takes the subscription to the room's channel with it.
pub last_client-subscribed :
    (r : Text) (c : ℕ) (h : Hub)
    → (h.client c).closed ≡ false
    → (h.client c).room_id ≡ r
    → lookup text_dec r h.rooms ≡ some (c ∷ [])
    → is_subscribed r (cleanup_client c h) ≡ false
unfolding cleanup_client leave_room drop_session close_client
last_client-subscribed r c h opened room alone =
    let room_id = (h.client c).room_id in
    let name = (h.client c).name in
    ground (
      arith,
      opened,
      room,
      alone,
      ==_iff c c,
      run_commands-append (h.commands ++ s_rem (users_key room_id) name ∷ []) (unsubscribe room_id)
          r false,
    )
