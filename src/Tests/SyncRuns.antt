-- ===== src/Tests/SyncRuns.antt =====
-- PriorSync requests to the router of RouterRuns.
use jmdn_fast_sync.Common.{ℕ, ◌≡◌, refl, ◌⊎◌, true, sub64, ◌==◌, some, [], ◌∷◌, arith}
use jmdn_fast_sync.Common.Result.{answered}
use jmdn_fast_sync.Checksum.{PriorSync, verify_from_pb}
use jmdn_fast_sync.Router.Sync.{clamp_range, refuse, to_sync, sync_request, needs_full_sync}
use jmdn_fast_sync.Router.Sync.Covers.{IsVerified, IsComparable, sync_request-covers}
use jmdn_fast_sync.Tag.{Tag}
use jmdn_fast_sync.Tag.Covers.{covers}
use jmdn_fast_sync.Tests.RouterRuns.{chain_of, two_trees, prior_at}
use jmdn_fast_sync.Tests.TreeRuns.{Differs, two_nodes-Reports, reported-holds}

prior-IsVerified : (n : ℕ) → IsVerified two_trees (prior_at n)
unfolding verify_from_pb
prior-IsVerified n = record {
  metadata = record { checksum = n ∷ 1 ∷ 2 ∷ []; version = 2 };
  present = refl;
  verified = let same : (n == n) ≡ true = ground arith in rw same refl;
}

-- A client at 10 asks a server at 19; the nodes differ in block 15.
abbrev compared_trees :
    IsComparable two_trees "own" (chain_of 19) (prior_at 10) (prior-IsVerified 10)
compared_trees = record {
  snapshot = 2;
  config = record { block_merge = 1; expected_total = 20 };
  target = 2;
  mine = 1;
  sent = refl;
  configured = refl;
  rebuilt = refl;
  built = refl;
  theirs = 2;
  ours = 1;
  target_root = refl;
  own_root = refl;
  unequal = refl;
  unequal' = refl;
}

abbrev clamped_10 : PriorSync ℕ
clamped_10 = record (prior_at 10) { range = some (record { start = 0; end = 19 }) }

sync_request-covers_example :
    ((tag : Tag) × (sync_request two_trees "own" (some (chain_of 19)) (prior_at 10)
        ≡ answered (to_sync two_trees clamped_10 tag, "own"))
      × (covers tag 15 ≡ true))
    ⊎ (sync_request two_trees "own" (some (chain_of 19)) (prior_at 10)
        ≡ answered (refuse two_trees clamped_10 "merkle error", "own"))
unfolding needs_full_sync sub64 clamp_range
sync_request-covers_example =
    sync_request-covers two_trees "own" (chain_of 19) (prior_at 10) (prior-IsVerified 10) Differs
      two_nodes-Reports 15 refl compared_trees refl refl (λ ds e. reported-holds 1 15 ds e refl)
