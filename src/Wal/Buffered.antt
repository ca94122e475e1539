-- ===== src/Wal/Buffered.antt =====
-- common/WAL/async_buffer.go: entries are coalesced in a stack and written to the log later.
pub mod Stack
