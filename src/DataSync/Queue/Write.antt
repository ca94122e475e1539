-- ===== src/DataSync/Queue/Write.antt =====
-- `processAndWriteBatch` of core/datasync/datasync.go: the accounts of a batch are tagged, its data is
-- logged, then written to the database, then a checkpoint is made.
use Prim.Native.String.{String}
use jmdn_fast_sync.Common.{
  ℕ, ◌+◌, ◌<◌, ◌≡◌, ◌≢◌, refl, inl, inr, Bool, true, false, Option, none, some, List, [], ◌∷◌,
  length, map, u64_mod, ◌==◌, if◌then◌else◌, Bool-cases, Option-cases, arith,
}
use jmdn_fast_sync.Common.Span.{span}
use jmdn_fast_sync.DataSync.Queue.{arrival, process_data_queue}
use jmdn_fast_sync.DataSync.Queue.Waiting.{occurs, window}
use jmdn_fast_sync.DataSync.Queue.Order.{in_order, process_data_queue-in_order}
use jmdn_fast_sync.Router.{NonHeaders}
use jmdn_fast_sync.Tag.{Tagging, tag_accounts}
use jmdn_fast_sync.Wal.Durable.{log_event, log_event_lem}
use jmdn_fast_sync.Wal.Log.{Disk}
use jmdn_fast_sync.Wal.Operations.{Wal, create_checkpoint, get_event}
use jmdn_fast_sync.Wal.Operations.Events.{entry_of}
use jmdn_fast_sync.Wal.Operations.Invariant.{IsValid}
use jmdn_fast_sync.Wal.Types.{Event}

-- What a fetched batch carries. `accounts` are the keys of its account map in the order of the iteration.
pub record Batch : Type 0 where
  pub non_headers : List NonHeaders
  pub accounts : List String

-- The log is missing where `SyncVars.WAL` is nil.
pub record Target (Db Log : Type 0) : Type 0 where
  pub db : Db
  pub log : Option (Wal Log)
  pub tags : Tagging

unfoldable pub tag_each : Tagging → List String → Tagging
tag_each t [] = t
tag_each t (a ∷ accounts) = tag_each (tag_accounts t a) accounts

-- `write_data` is `WriteData`, `none` for an error; `event` is the `DataSyncEvent`; `now` is the clock.
module _ (disk : Disk) {Db : Type 0} (write_data : Db → List NonHeaders → Option Db)
    (event : List NonHeaders → Event) (now : ℕ) where
  open disk use {Log}

  -- The call of WriteData, with the checkpoint behind it, whose error is only reported.
  unfoldable pub write_to_db : Target Db Log → Option (Wal Log) → Batch → Target Db Log × Bool
  write_to_db t log b = elim (write_data t.db b.non_headers) [
    | none ↦ (record t { log = log }, false)
    | some db ↦ (
      record t {
        db = db;
        log = elim log [ none ↦ none | some w ↦ some (create_checkpoint disk w).0 ];
      },
      true,
    )
  ]

  -- `processAndWriteBatch`
  unfoldable pub process_and_write_batch : Target Db Log → Batch → Target Db Log × Bool
  unfolding tag_each write_to_db log_event
  process_and_write_batch t b =
      let t' : Target Db Log = record t { tags = tag_each t.tags b.accounts } in
      if length b.non_headers == 0 then (t', true) else elim t.log [
        | none ↦ write_to_db t' none b
        | some w ↦
            let (w', logged) = log_event disk w (event b.non_headers) now in
            if logged then write_to_db t' (some w') b else (record t' { log = some w' }, false)
      ]

  -- A batch that arrives exactly once from each number up to `n`, none of them refused: the database, the log
  -- and the tags in the end, and whether there was an error, are those of writing the batches one after
  -- the other in the order of their numbers, up to the first error, whatever the order of arrival.
  pub process_data_queue-process_and_write_batch :
      (batch_of : ℕ → Batch) (n : ℕ) (ids : List ℕ) (t : Target Db Log)
      → ((k : ℕ) → occurs k ids ≡ window n 1 k)
      → process_data_queue process_and_write_batch t (map (arrival batch_of) ids)
        ≡ in_order process_and_write_batch batch_of t (span 1 n)
  process_data_queue-process_and_write_batch batch_of n ids t once =
      process_data_queue-in_order process_and_write_batch batch_of n ids t once

  -- The call on a batch with data, with a log.
  write_step :
      (t : Target Db Log) (b : Batch) (w : Wal Log)
      → t.log ≡ some w
      → (length b.non_headers == 0) ≡ false
      → let t' : Target Db Log = record t { tags = tag_each t.tags b.accounts } in
        process_and_write_batch t b ≡ (
          if (log_event disk w (event b.non_headers) now).1
          then write_to_db t' (some (log_event disk w (event b.non_headers) now).0) b
          else (record t' { log = some (log_event disk w (event b.non_headers) now).0 }, false))
  unfolding process_and_write_batch
  write_step t b w at filled = rw (filled, process_and_write_batch) (rw at refl)

  -- When a batch with data is logged and written without an error, from a valid log whose counter is not
  -- at its end, and its event can be serialised: the database is the one that WriteData returns, and the
  -- log that the checkpoint is made of is valid, has an empty buffer and holds the batch's event at the
  -- LSN that follows.
  pub process_and_write_batch-logged :
      (t : Target Db Log) (b : Batch) (w : Wal Log) (payload : List ℕ)
      → t.log ≡ some w
      → IsValid disk w
      → w.current_lsn + 1 < u64_mod
      → (event b.non_headers).serialized ≡ some payload
      → length b.non_headers ≢ 0
      → (process_and_write_batch t b).1 ≡ true
      → let t' = (process_and_write_batch t b).0 in
        let lsn = w.current_lsn + 1 in
        (w' : Wal Log) × (t'.log ≡ some (create_checkpoint disk w').0)
        × (write_data t.db b.non_headers ≡ some t'.db)
        × IsValid disk w'
        × (w'.buffer ≡ [])
        × (get_event disk w' lsn ≡ some (entry_of disk (event b.non_headers) payload lsn now))
  unfolding write_to_db
  process_and_write_batch-logged t b w payload at v small ser filled ok =
      let nonempty : (length b.non_headers == 0) ≡ false = ground (arith, filled) in
      let step = write_step t b w at nonempty in
      elim (Bool-cases (log_event disk w (event b.non_headers) now).1) [
        | inr unlogged ↦ cc (rw unlogged at (rw step at ok))
        | inl logged ↦ elim (Option-cases (write_data t.db b.non_headers)) [
          | inl refused ↦ cc (rw (refused, write_to_db) at (rw logged at (rw step at ok)))
          | inr (db, written) ↦
              let (valid, emptied, flushed, reads) =
                log_event_lem disk w (event b.non_headers) payload now v small ser logged in
              rw step (
                rw logged (
                  rw (written, write_to_db)
                    (
                      (log_event disk w (event b.non_headers) now).0,
                      refl,
                      refl,
                      valid,
                      emptied,
                      reads,
                    )))
        ]
      ]
