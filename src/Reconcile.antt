-- ===== src/Reconcile.antt =====
-- core/reconsillation/reconsillation.go: the balances of the tagged accounts are brought up to date from
-- the transactions of the synchronised blocks.
pub mod Balance
pub mod Commit
