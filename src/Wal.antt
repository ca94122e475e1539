-- ===== src/Wal.antt =====
-- common/WAL: the write-ahead log of sync events.
pub mod Log
pub mod Types
pub mod Operations
pub mod Durable
pub mod Events
pub mod Hydration
pub mod Replay
pub mod Buffered
