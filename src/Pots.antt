-- ===== src/Pots.antt =====
-- Point-of-time sync: core/protocol/router/helper/pots (the server's answer) and core/pots/helper (the
-- client's map of block numbers to block hashes).
pub mod BlockMap
pub mod Compare
pub mod Tags
pub mod Response
