-- ===== src/Tests/LogRuns.antt =====
-- The write-ahead log on a log in memory.
use jmdn_fast_sync.Common.{
  ℕ, ◌+◌, ◌≤◌, ◌≡◌, refl, false, none, some, List, [], ◌∷◌, add64, ◌==◌, if◌then◌else◌, length, All,
  arith,
}
use jmdn_fast_sync.Tests.Memory.{Memory, empty_memory, memory_disk}
use jmdn_fast_sync.Wal.Types.{Entry, Event, data_sync, max_snapshot_limit}
use jmdn_fast_sync.Wal.Operations.{
  Wal, save_lsn, new_wal, write_entries, flush_buffer, write_event, get_event, mark, rotate,
  create_checkpoint,
}
use jmdn_fast_sync.Wal.Operations.Invariant.{IsValid, Stored, Flushed, flush_buffer-Flushed}
use jmdn_fast_sync.Wal.Operations.Events.{write_event_lem, new_wal-flush_buffer}
use jmdn_fast_sync.Wal.Operations.Stuck.{new_wal-stale_metadata}
use jmdn_fast_sync.Wal.Operations.Checkpoints.{create_checkpoint_lem}

abbrev entry_at : ℕ → Entry
entry_at n = record { wal_type = data_sync; payload = 7 ∷ n ∷ []; lsn = n; timestamp = 100 }

abbrev event : Event
event = record { event_type = data_sync; serialized = some (7 ∷ 3 ∷ []) }

abbrev broken_event : Event
broken_event = record { event_type = data_sync; serialized = none }

abbrev log_with : ℕ → List Entry → ℕ → Wal Memory
log_with capacity buffer counter = record {
  log = empty_memory capacity;
  buffer = buffer;
  batch_size = 3;
  current_lsn = counter;
  last_flushed_lsn = 0;
  metadata = none;
  checkpoints = [];
}

-- Two entries are buffered, and a third fills the buffer.
abbrev two_buffered : Wal Memory
two_buffered = log_with 9 (entry_at 1 ∷ entry_at 2 ∷ []) 2

two_buffered-IsValid : IsValid memory_disk two_buffered
two_buffered-IsValid = record { at_end = refl; consecutive = (refl, (refl, tt)); counted = refl }

abbrev fresh : Wal Memory
fresh = log_with 9 [] 0

fresh-IsValid : IsValid memory_disk fresh
fresh-IsValid = record { at_end = refl; consecutive = tt; counted = refl }

-- The disk has room for one entry.
abbrev nearly_full : Wal Memory
nearly_full = log_with 1 (entry_at 1 ∷ entry_at 2 ∷ []) 2

nearly_full-IsValid : IsValid memory_disk nearly_full
nearly_full-IsValid = record { at_end = refl; consecutive = (refl, (refl, tt)); counted = refl }

write_event_lem_example :
    IsValid memory_disk (write_event memory_disk two_buffered event 100).0
    × (3 ≡ 2 + 1)
    × ((write_event memory_disk two_buffered event 100).0.current_lsn ≡ 3)
    × (get_event memory_disk (write_event memory_disk two_buffered event 100).0 3
        ≡ some (entry_at 3))
unfolding write_event flush_buffer write_entries save_lsn add64
write_event_lem_example =
    write_event_lem memory_disk two_buffered event (7 ∷ 3 ∷ []) 100 3 two_buffered-IsValid
      (omega arith) refl refl

flush_buffer-Flushed_example :
    Flushed memory_disk two_buffered (flush_buffer memory_disk two_buffered).0
unfolding flush_buffer write_entries save_lsn
flush_buffer-Flushed_example =
    flush_buffer-Flushed memory_disk two_buffered two_buffered-IsValid refl

new_wal-flush_buffer_example :
    let w' = (flush_buffer memory_disk two_buffered).0 in
    let w'' = new_wal memory_disk w'.log w'.metadata [] 5 in
    IsValid memory_disk w'' × (w''.buffer ≡ []) × (w''.current_lsn ≡ 2)
unfolding flush_buffer write_entries save_lsn
new_wal-flush_buffer_example =
    new_wal-flush_buffer memory_disk two_buffered [] 5 two_buffered-IsValid (λ e. cc) refl

new_wal-stale_metadata_example :
    let w =
      new_wal memory_disk
        (empty_memory 9)
        (some (record { current_lsn = 4; last_flushed_lsn = 4 }))
        []
        5 in
    let w' = (write_event memory_disk w event 100).0 in flush_buffer memory_disk w' ≡ (w', false)
new_wal-stale_metadata_example =
    new_wal-stale_metadata memory_disk (empty_memory 9)
      (record { current_lsn = 4; last_flushed_lsn = 4 }) [] 5 100 event (7 ∷ 3 ∷ [])
      (λ e. absurd (omega (arith, e))) (omega arith) (omega arith) refl

abbrev one_written : Memory
one_written = record {
  capacity = 1;
  first = 0;
  last = 1;
  at = λ j. if j == 1 then some (memory_disk.codec.marshal (entry_at 1)) else none;
}

create_checkpoint_lem_example :
    let w' = (create_checkpoint memory_disk two_buffered).0 in
    (◌≡◌ {A = ℕ} 2 2)
    × IsValid memory_disk w'
    × (w'.buffer ≡ [])
    × (w'.current_lsn ≡ 2)
    × (length w'.checkpoints ≤ max_snapshot_limit)
    × All (λ e. 2 ≤ e.lsn → Stored memory_disk w'.log e) two_buffered.buffer
    × ((j : ℕ) → 2 ≤ j → j ≤ 0 → memory_disk.log_api.read w'.log j ≡ none)
unfolding create_checkpoint flush_buffer write_entries save_lsn mark rotate
create_checkpoint_lem_example =
    create_checkpoint_lem memory_disk two_buffered 2 2 [] two_buffered-IsValid (omega arith) refl
      refl
