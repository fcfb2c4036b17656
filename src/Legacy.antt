-- ===== src/Legacy.antt =====
-- The earlier servers of legacy, one program in a file each, that the present one grew out of.
pub mod Stateful
pub mod Parsing
pub mod Chat
