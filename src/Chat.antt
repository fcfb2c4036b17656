-- ===== src/Chat.antt =====
-- internal/chat: the hub and its clients.
pub mod Hub
pub mod Pump
pub mod Journey
pub mod Entry
