-- ===== src/Tests/ReplayRuns.antt =====
-- Replaying a log of two entries, and an empty one.
use jmdn_fast_sync.Common.{
  ℕ, ◌≡◌, refl, Option, none, some, List, [], ◌∷◌, ◌==◌, if◌then◌else◌, All,
}
use jmdn_fast_sync.Tests.Memory.{Memory, memory_disk}
use jmdn_fast_sync.Wal.Operations.{Wal, read_entry}
use jmdn_fast_sync.Wal.Operations.Invariant.{Stored}
use jmdn_fast_sync.Wal.Replay.{replay_events_by_type, run, of_type, replay_events_by_type_lem}
use jmdn_fast_sync.Wal.Types.{WalType, Entry, data_sync, pots}

abbrev entry_at : WalType → ℕ → Entry
entry_at t n = record { wal_type = t; payload = 7 ∷ n ∷ []; lsn = n; timestamp = 100 }

abbrev both : List Entry
both = entry_at pots 1 ∷ entry_at data_sync 2 ∷ []

abbrev written : Memory
written = record {
  capacity = 9;
  first = 1;
  last = 2;
  at = λ j.
      if j == 1
      then some (memory_disk.codec.marshal (entry_at pots 1))
      else if j == 2
      then some (memory_disk.codec.marshal (entry_at data_sync 2))
      else none;
}

abbrev log_of : Memory → Wal Memory
log_of memory = record {
  log = memory;
  buffer = [];
  batch_size = 3;
  current_lsn = 2;
  last_flushed_lsn = 2;
  metadata = none;
  checkpoints = [];
}

both-Stored : All (Stored memory_disk written) both
unfolding read_entry
both-Stored = (refl, (refl, tt))

abbrev collect : List ℕ → Entry → Option (List ℕ)
collect seen e = some (e.lsn ∷ seen)

replay_events_by_type_lem_example :
    replay_events_by_type memory_disk data_sync collect (log_of written) []
    ≡ run memory_disk collect (of_type data_sync both) []
replay_events_by_type_lem_example =
    replay_events_by_type_lem memory_disk data_sync collect (log_of written) both []
      (refl, (refl, tt)) both-Stored refl
