-- ===== src/Api.antt =====
-- The HTTP side: internal/api/authHandler.go, internal/auth and internal/middleware; `Service` adds
-- internal/Tasks.
mod Credentials
mod Handlers
pub mod Reuse
pub mod Access
pub mod Signup
pub mod Tokens
pub mod Service
unfoldable pub use Credentials.*
unfoldable pub use Handlers.*
