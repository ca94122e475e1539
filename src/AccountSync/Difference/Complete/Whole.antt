-- ===== src/AccountSync/Difference/Complete/Whole.antt =====
-- ComputeAccountDiff from beginning to end.
use jmdn_fast_sync.Common.{ℕ, ◌≡◌, Bool, false}
use jmdn_fast_sync.AccountSync.Difference.{Sink, Parent}
use jmdn_fast_sync.AccountSync.Difference.Complete.{IsFaithful}

module _ (sink : Sink) (contains : ℕ → Bool) where
  module _ (faithful : IsFaithful sink) (w : ℕ → ℕ) where
    -- A parent that has stopped.
    abbrev pub HasStopped : Parent → Type 0
    HasStopped p = p.running ≡ false
