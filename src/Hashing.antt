-- ===== src/Hashing.antt =====
-- The consistent hash ring of internal/hashing/consistent.go. The checksum of `hash/crc32` is the
-- parameter `hash`, an arbitrary function here. The mutex makes each method one step.
mod Sorting
mod Search
mod Nodes
pub mod Order
pub mod Lookup
pub mod Changes
pub mod Invariant
pub mod Routing
pub mod Restore
pub mod Members
unfoldable pub use Sorting.*
unfoldable pub use Search.*
unfoldable pub use Nodes.*
