-- ===== src/AccountSync.antt =====
-- The serving side of the account synchronisation: core/protocol/router/helper/accounts.
pub mod Difference
pub mod Dispatcher
