-- ===== src/Chat/Hub/State.antt =====
-- The state of the hub. A `*Client` is an address in the store `client`, so that two maps may hold
-- one client. What the hub asks of Redis is a list of commands, the latest at the end; goroutines
-- that it has started and that have not run are a list of tasks.
use websocket_challenge.Base.{
  ℕ, ◌++◌, Bool, List, [], ◌∷◌, length, ltb, ◌==◌, if◌then◌else◌, Text, codes, Dict,
}
use websocket_challenge.Messages.{Message, StoredMessage, Payload}
use websocket_challenge.Hashing.{Ring}

-- What stands in a `Send` channel, as bytes: a marshalled message, live or from the database.
pub data Frame : Type 0 where
  live : Payload → Frame
  history : StoredMessage → Frame

-- `closed` holds once the client's `sync.Once` has run, which closes the connection and `Send`.
pub record Client : Type 0 where
  pub room_id : Text
  pub name : Text
  pub send : List Frame
  pub closed : Bool

-- Commands to Redis that change something there.
pub data Command : Type 0 where
  s_add s_rem : Text → Text → Command
  publish : Text → Payload → Command
  subscribe unsubscribe : Text → Command

pub data Task : Type 0 where
  replay_history : ℕ → Task
  broadcast_user_list : Text → Task
  unregister : ℕ → Task
  cleanup : ℕ → Task

pub record Hub : Type 0 where
  pub client : ℕ → Client
  pub all_clients : Dict Text ℕ
  pub rooms : Dict Text (List ℕ)
  pub broadcast : List Message
  pub persistence_queue : List StoredMessage
  pub server_id : Text
  pub active_subs : Dict Text Bool
  pub ring : Ring
  pub redis_online : Bool
  pub last_seen : Dict Text ℕ
  pub commands : List Command
  pub tasks : List Task

-- A step ends, waits on a channel that only the waiting goroutine itself reads, waits for another
-- goroutine to read a channel, or panics: a send on a closed channel.
pub data Result : Type 0 where
  ok : Hub → Result
  deadlocked : Result
  waiting : Result
  panicked : Result

infixl 5 ◌>>=◌
abbrev pub ◌>>=◌ : Result → (Hub → Result) → Result
ok h >>= f = f h
deadlocked >>= f = deadlocked
waiting >>= f = waiting
panicked >>= f = panicked

-- The capacities that `NewHub` and `serveWS` give to the channels.
abbrev pub broadcast_capacity : ℕ
broadcast_capacity = 2048

abbrev pub persistence_capacity : ℕ
persistence_capacity = 1024

abbrev pub send_capacity : ℕ
send_capacity = 256

abbrev pub set_client : ℕ → Client → Hub → Hub
set_client c cl h = record h { client = λ d. if d == c then cl else h.client d }

abbrev pub command : Command → Hub → Hub
command x h = record h { commands = h.commands ++ x ∷ [] }

-- A `go` statement.
abbrev pub spawn : Task → Hub → Hub
spawn t h = record h { tasks = h.tasks ++ t ∷ [] }

-- `"room:" + roomID + ":users"`
abbrev pub users_key : Text → Text
users_key room_id = codes "room:" ++ room_id ++ codes ":users"

abbrev pub global_signals : Text
global_signals = codes "global_signals"

-- `h.Broadcast <- message` from `Run`, whose own loop is the only reader.
unfoldable pub send_broadcast : Message → Hub → Result
send_broadcast m h =
    if ltb (length h.broadcast) broadcast_capacity
    then ok (record h { broadcast = h.broadcast ++ m ∷ [] })
    else deadlocked
