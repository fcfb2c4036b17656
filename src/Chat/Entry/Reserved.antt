-- ===== src/Chat/Entry/Reserved.antt =====
-- The name of the servers' channel is also the name of a room.
use websocket_challenge.Base.{
  ℕ, ◌≡◌, ◌∙◌, ap, false, some, [], ◌∷◌, Text, lookup, text_dec, trim_space, trim_left,
}
use websocket_challenge.Chat.Hub.{Hub, global_signals, cleanup_client}
use websocket_challenge.Chat.Hub.Subscriptions.{is_subscribed, last_client-subscribed}
use websocket_challenge.Chat.Entry.{sanitize, checked_room}

sanitize-global_signals :
    (to_lower : Text → Text)
    → to_lower global_signals ≡ global_signals
    → sanitize to_lower global_signals ≡ global_signals
unfolding sanitize checked_room trim_space trim_left
sanitize-global_signals to_lower low = ap (λ s. checked_room (trim_space s)) low

-- A request for the room "global_signals" gets it. When the only client in that room is cleaned up,
-- the server ends its subscription to the channel on which the servers talk to each other.
pub reserved_room :
    (to_lower : Text → Text) (c : ℕ) (h : Hub)
    → to_lower global_signals ≡ global_signals
    → (h.client c).room_id ≡ sanitize to_lower global_signals
    → (h.client c).closed ≡ false
    → lookup text_dec global_signals h.rooms ≡ some (c ∷ [])
    → ((h.client c).room_id ≡ global_signals)
      × (is_subscribed global_signals (cleanup_client c h) ≡ false)
reserved_room to_lower c h low room opened alone =
    let there = room ∙ sanitize-global_signals to_lower low in
    (there, last_client-subscribed global_signals c h opened there alone)
