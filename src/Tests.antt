-- ===== src/Tests.antt =====
-- The theorems at concrete inputs.
pub mod Memory
pub mod LogRuns
pub mod TreeRuns
pub mod RouterRuns
pub mod SyncRuns
pub mod QueueRuns
pub mod DifferenceRuns
pub mod DispatchRuns
pub mod HeaderRuns
pub mod AvailabilityRuns
pub mod TagRuns
pub mod BalanceRuns
pub mod ReplayRuns
pub mod EventRuns
pub mod UploadRuns
pub mod SnapshotRuns
