-- ===== src/Wal/Operations.antt =====
-- common/WAL/operations.go: assigning LSNs, buffering, flushing, reading back, truncation and
-- checkpoints. A method returns the new state beside its result, `none` for an error.
pub mod Invariant
pub mod Events
pub mod Reads
pub mod Stuck
pub mod Checkpoints
use jmdn_fast_sync.Common.{
  ℕ, ◌+◌, Bool, true, false, Option, none, some, List, [], ◌∷◌, ◌++◌, add64, ltb, leb, ◌==◌,
  if◌then◌else◌, length,
}
use jmdn_fast_sync.Wal.Log.{Disk}
use jmdn_fast_sync.Wal.Types.{Entry, Event, max_snapshot_limit, default_batch_size}

-- `LSNMetadata`, as it is stored.
pub record Metadata : Type 0 where
  pub current_lsn : ℕ
  pub last_flushed_lsn : ℕ

-- The `WAL` struct, with the metadata file and the LSNs of the marker files in the checkpoint
-- directory, in the order of a listing.
pub record Wal (Log : Type 0) : Type 0 where
  pub log : Log
  pub buffer : List Entry
  pub batch_size : ℕ
  pub current_lsn : ℕ
  pub last_flushed_lsn : ℕ
  pub metadata : Option Metadata
  pub checkpoints : List ℕ

-- `now` is the time of day.
module _ (disk : Disk) where
  open disk use {
    Log, first_index, last_index, read, write, truncate_front, marshal, unmarshal, save_ok, mark_ok,
  }

  -- `saveLSN`
  unfoldable pub save_lsn : Wal Log → Wal Log × Bool
  save_lsn w =
      if save_ok w.current_lsn
      then (
        record w {
          metadata =
              some (record { current_lsn = w.current_lsn; last_flushed_lsn = w.last_flushed_lsn });
        },
        true,
      )
      else (w, false)

  -- `loadLSN`, for a log that was opened with this metadata file.
  unfoldable pub load_lsn : Wal Log → Wal Log
  load_lsn w = elim w.metadata [
    | none ↦ record w { current_lsn = 0; last_flushed_lsn = 0 }
    | some m ↦ record w { current_lsn = m.current_lsn; last_flushed_lsn = m.last_flushed_lsn }
  ]

  -- `NewWAL` on a directory that holds this log, metadata file and markers.
  unfoldable pub new_wal : Log → Option Metadata → List ℕ → ℕ → Wal Log
  unfolding load_lsn
  new_wal log metadata checkpoints batch_size = load_lsn (record {
    log = log;
    buffer = [];
    batch_size = if batch_size == 0 then default_batch_size else batch_size;
    current_lsn = 0;
    last_flushed_lsn = 0;
    metadata = metadata;
    checkpoints = checkpoints;
  })

  -- The loop of `flushBuffer` over the buffered entries: the log, `lastFlushedLSN`, and whether every
  -- write succeeded.
  unfoldable pub write_entries : Log → ℕ → List Entry → Log × ℕ × Bool
  write_entries log flushed [] = (log, flushed, true)
  write_entries log flushed (entry ∷ entries) = elim (write log entry.lsn (marshal entry)) [
    | none ↦ (log, flushed, false)
    | some log' ↦ write_entries log' (if ltb flushed entry.lsn then entry.lsn else flushed) entries
  ]

  -- `flushBuffer`: the buffer is kept when a write fails.
  unfoldable pub flush_buffer : Wal Log → Wal Log × Bool
  unfolding save_lsn
  flush_buffer w =
      let written = write_entries w.log w.last_flushed_lsn w.buffer in
      let w' = record w { log = written.0; last_flushed_lsn = written.1 } in
      if length w.buffer == 0
      then (w, true)
      else if written.2
      then save_lsn (record w' { buffer = [] })
      else (w', false)

  -- `WriteEvent`: the LSN is drawn before the event is serialised.
  unfoldable pub write_event : Wal Log → Event → ℕ → Wal Log × Option ℕ
  write_event w event now =
      let lsn = add64 w.current_lsn 1 in
      let drawn = record w { current_lsn = lsn } in
      elim event.serialized [
        | none ↦ (drawn, none)
        | some payload ↦
            let entry : Entry = record {
              wal_type = event.event_type;
              payload = payload;
              lsn = lsn;
              timestamp = now;
            } in
            let added = record drawn { buffer = w.buffer ++ entry ∷ [] } in
            let flushed = flush_buffer added in
            if leb w.batch_size (length added.buffer)
            then (flushed.0, if flushed.1 then some lsn else none)
            else (added, some lsn)
      ]

  -- The loop of `GetEvent` over the buffer.
  unfoldable pub find_entry : ℕ → List Entry → Option Entry
  find_entry lsn [] = none
  find_entry lsn (entry ∷ entries) = if entry.lsn == lsn then some entry else find_entry lsn entries

  -- Reading and unmarshalling the entry at an index.
  unfoldable pub read_entry : Log → ℕ → Option Entry
  read_entry log index = elim (read log index) [ none ↦ none | some stored ↦ unmarshal stored ]

  -- `GetEvent`
  unfoldable pub get_event : Wal Log → ℕ → Option Entry
  unfolding find_entry read_entry
  get_event w lsn = elim (find_entry lsn w.buffer) [
    | some entry ↦ some entry
    | none ↦ read_entry w.log lsn
  ]

  -- `truncateBeforeUnlocked`
  unfoldable pub truncate_before : Wal Log → ℕ → Wal Log × Bool
  truncate_before w lsn =
      if lsn == 0
      then (w, true)
      else if leb lsn (first_index w.log)
      then (w, true)
      else elim (truncate_front w.log lsn) [
        | none ↦ (w, false)
        | some log ↦ (record w { log = log }, true)
      ]

  -- Writing the file `lsn_…` into the directory: an existing one is replaced.
  unfoldable pub mark : ℕ → List ℕ → List ℕ
  mark lsn [] = lsn ∷ []
  mark lsn (m ∷ ms) =
      let rest = mark lsn ms in
      if m == lsn then m ∷ ms else if ltb lsn m then lsn ∷ m ∷ ms else m ∷ rest

  -- The rotation of `CreateCheckpoint`, on the listed markers.
  unfoldable pub rotate : Wal Log → ℕ → List ℕ → Wal Log × Option ℕ
  unfolding truncate_before
  rotate w lsn [] = (w, some lsn)
  rotate w lsn (oldest ∷ markers) =
      let (w', truncated) = truncate_before w oldest in
      if ltb max_snapshot_limit (length (oldest ∷ markers))
      then if truncated
        then if mark_ok oldest then (record w' { checkpoints = markers }, some lsn) else (w', none)
        else (w', none)
      else (w, some lsn)

  -- `CreateCheckpoint`
  unfoldable pub create_checkpoint : Wal Log → Wal Log × Option ℕ
  unfolding mark rotate
  create_checkpoint w =
      let (w', flushed) = flush_buffer w in
      let lsn = w'.last_flushed_lsn in
      let marked = record w' { checkpoints = mark lsn w'.checkpoints } in
      if flushed
      then if mark_ok lsn then rotate marked lsn marked.checkpoints else (w', none)
      else (w', none)
