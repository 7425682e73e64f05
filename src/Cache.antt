-- ===== src/Cache.antt =====
-- The caches of the package `cache`: in memory, none, and behind the agent's socket.
pub mod Mem
pub mod Nothing
pub mod Socket
pub mod Sqlite
