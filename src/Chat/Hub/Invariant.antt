-- ===== src/Chat/Hub/Invariant.antt =====
-- What holds of the hub between two cases of `Run`: its maps tell one story.
pub mod Cleanup
pub mod Register
pub mod Cases
use websocket_challenge.Base.{
  ℕ, ◌≡◌, ◌≢◌, Bool, true, false, ◌&&◌, Option, none, some, List, [], Text, ◌≟◌, Dict, lookup,
  text_dec, contains, IsNodup,
}
use websocket_challenge.Chat.Hub.State.{Client, Hub}
use websocket_challenge.Chat.Hub.Sessions.{holds, is_active, room_of}

abbrev pub is_some {ℓ} : {A : Type ℓ} → Option A → Bool
is_some none = false
is_some (some a) = true

-- The client is the session of its name.
abbrev pub is_session : ℕ → Hub → Bool
is_session c h = holds (lookup text_dec (h.client c).name h.all_clients) c

-- The clients of a room are exactly the sessions whose room it is, each once; a session is held
-- under its own name and is open; no room is empty; and the subscriptions are those of the rooms.
pub record IsHub (h : Hub) : Type 0 where
  pub members :
      (r : Text) (c : ℕ) → contains (room_of r h) c ≡ (is_session c h && (h.client c).room_id ≟ r)
  pub distinct : (r : Text) → IsNodup (room_of r h)
  pub named : (n : Text) (c : ℕ) → lookup text_dec n h.all_clients ≡ some c → (h.client c).name ≡ n
  pub opened : (c : ℕ) → is_session c h ≡ true → (h.client c).closed ≡ false
  pub nonempty : (r : Text) → lookup text_dec r h.rooms ≢ some []
  pub subscribed : (r : Text) → is_active r h ≡ is_some (lookup text_dec r h.rooms)
