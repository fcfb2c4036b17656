-- ===== src/Chat/Hub.antt =====
-- internal/chat/hub.go. `State` has the hub and what it shares with other goroutines, `Sessions`
-- the register and unregister cases of `Run`, `Broadcast` its broadcast case, `Worker` the
-- goroutine that writes to the database, `Cluster` the exchange with other servers, and `Home` has
-- `NewHub`.
mod State
mod Sessions
mod Broadcast
mod Cluster
mod Worker
pub mod Invariant
pub mod Delivery
pub mod Signals
pub mod Kicking
pub mod Crossing
pub mod Home
pub mod Settling
pub mod Runs
pub mod Races
pub mod Watching
pub mod Shutdown
pub mod Subscriptions
pub mod Persistence
pub mod Replay
unfoldable pub use State.*
unfoldable pub use Sessions.*
unfoldable pub use Broadcast.*
unfoldable pub use Cluster.*
unfoldable pub use Worker.*
