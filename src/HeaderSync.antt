-- ===== src/HeaderSync.antt =====
-- core/headersync/headersync.go: the requests of HeaderSync, the confirmation by a peer, and the rounds.
pub mod Batches
pub mod Confirm
pub mod Queue
pub mod Rounds
