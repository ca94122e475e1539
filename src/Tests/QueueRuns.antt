-- ===== src/Tests/QueueRuns.antt =====
-- Three batches of one block that arrive as 2, 3, 1, and a batch of two blocks from the second of two remotes.
use jmdn_fast_sync.Common.{
  ℕ, ◌+◌, ◌≡◌, refl, Option, none, some, List, [], ◌∷◌, ◌++◌, length, map, ◌==◌, arith, add64,
  if◌then◌else◌,
}
use jmdn_fast_sync.Common.Sort.{sort}
use jmdn_fast_sync.DataSync.Batches.{make_data_batch_request}
use jmdn_fast_sync.DataSync.Queue.{arrival, process_data_queue}
use jmdn_fast_sync.DataSync.Queue.Fetch.{Remote, Reply, attempt, fail_over, fetch_batch}
use jmdn_fast_sync.DataSync.Queue.Fetch.Usable.{IsUsable, fetch_batch-IsUsable}
use jmdn_fast_sync.DataSync.Queue.Order.{in_order}
use jmdn_fast_sync.DataSync.Queue.Write.{
  Batch, Target, process_and_write_batch, write_to_db, process_data_queue-process_and_write_batch,
  process_and_write_batch-logged,
}
use jmdn_fast_sync.Router.{NonHeaders}
use jmdn_fast_sync.Tag.{new_tagging, empty_tag}
use jmdn_fast_sync.Tests.BalanceRuns.{log, log-IsValid}
use jmdn_fast_sync.Tests.Memory.{Memory, memory_disk}
use jmdn_fast_sync.Tests.RouterRuns.{body_of}
use jmdn_fast_sync.Wal.Durable.{log_event}
use jmdn_fast_sync.Wal.Operations.{
  Wal, save_lsn, write_entries, flush_buffer, write_event, create_checkpoint, get_event,
}
use jmdn_fast_sync.Wal.Operations.Events.{entry_of}
use jmdn_fast_sync.Wal.Operations.Invariant.{IsValid}
use jmdn_fast_sync.Wal.Types.{Event, data_sync}
use jmdn_fast_sync.Wire.{DataSyncRequest, accepted}

abbrev batch_of : ℕ → Batch
batch_of k = record { non_headers = body_of k ∷ []; accounts = "account" ∷ [] }

abbrev write_data : List NonHeaders → List NonHeaders → Option (List NonHeaders)
write_data db blocks = some (db ++ blocks)

abbrev data_event : List NonHeaders → Event
data_event blocks = record { event_type = data_sync; serialized = some (length blocks ∷ []) }

abbrev empty_target : Target (List NonHeaders) Memory
empty_target = record { db = []; log = some log; tags = new_tagging }

process_data_queue-process_and_write_batch_example :
    process_data_queue
      (process_and_write_batch memory_disk write_data data_event 100)
      empty_target
      (map (arrival batch_of) (2 ∷ 3 ∷ 1 ∷ []))
    ≡ in_order
        (process_and_write_batch memory_disk write_data data_event 100)
        batch_of
        empty_target
        (1 ∷ 2 ∷ 3 ∷ [])
process_data_queue-process_and_write_batch_example =
    process_data_queue-process_and_write_batch memory_disk write_data data_event 100 batch_of 3
      (2 ∷ 3 ∷ 1 ∷ []) empty_target (λ k. ground arith)

process_and_write_batch-logged_example :
    let t' =
      (process_and_write_batch memory_disk write_data data_event 100 empty_target (batch_of 4)).0 in
    (w' : Wal Memory) × (t'.log ≡ some (create_checkpoint memory_disk w').0)
    × (write_data [] (body_of 4 ∷ []) ≡ some t'.db)
    × IsValid memory_disk w'
    × (w'.buffer ≡ [])
    × (get_event memory_disk w' 1
        ≡ some (entry_of memory_disk (data_event (body_of 4 ∷ [])) (1 ∷ []) 1 100))
unfolding process_and_write_batch write_to_db log_event write_event flush_buffer write_entries
    save_lsn add64
process_and_write_batch-logged_example =
    process_and_write_batch-logged memory_disk write_data data_event 100 empty_target (batch_of 4)
      log (1 ∷ []) refl log-IsValid (omega arith) refl (ground arith) refl

-- The network counts the calls; the peer 1 refuses and the peer 2 answers.
abbrev answer : ℕ → ℕ → DataSyncRequest → ℕ × Option Reply
answer calls peer request = (
  calls + 1,
  if peer == 1
      then none
      else some
          (record { ack = some accepted; content = body_of 6 ∷ body_of 5 ∷ []; accounts = [] }),
)

abbrev remote : ℕ → Remote ℕ
remote peer = record { peer = some peer; auth = none }

abbrev sorted_batch : Batch
sorted_batch = record { non_headers = body_of 5 ∷ body_of 6 ∷ []; accounts = [] }

fetch_batch-IsUsable_example : IsUsable sorted_batch
unfolding fetch_batch fail_over attempt sort
fetch_batch-IsUsable_example =
    fetch_batch-IsUsable answer 0 1 (make_data_batch_request 1 none empty_tag) (remote 1)
      (remote 2 ∷ []) sorted_batch refl
