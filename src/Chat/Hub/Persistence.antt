-- ===== src/Chat/Hub/Persistence.antt =====
-- What the database worker makes of the queue that `Run` fills.
use websocket_challenge.Base.{Text, contains, ◌≤◌, ℕ, ◌≡◌, Bool, true, false, List, map, length}
use websocket_challenge.Messages.{StoredMessage, MessageType, chat, private}
use websocket_challenge.Repository.History.{is_smallint}
use websocket_challenge.Chat.Hub.State.{Hub}

-- The types of which the worker writes rows.
abbrev pub is_saved_type : MessageType → Bool
is_saved_type chat = true
is_saved_type private = true
is_saved_type _ = false

-- The queue of a hub, with a database that answers for every entry.
abbrev pub answered : List StoredMessage → List (Bool × StoredMessage)
answered ms = map (λ m. (true, m)) ms

-- The text has no character 0, and at most `n` others.
abbrev pub IsVarchar : ℕ → Text → Type 0
IsVarchar n s = (contains s 0 ≡ false) × (length s ≤ n)

-- The columns of the table can hold the message.
pub record Fits (m : StoredMessage) : Type 0 where
  pub room_id : IsVarchar 64 m.room_id
  pub sender : IsVarchar 255 m.sender
  pub target : IsVarchar 255 m.target
  pub content : contains m.content 0 ≡ false
  pub status : is_smallint m.status ≡ true
