-- ===== src/Wal/Operations/Stuck.antt =====
-- States from which the log cannot flush any more: the LSN of the first buffered entry is not the index
-- that comes next on disk, so every attempt to write it is out of order.
use jmdn_fast_sync.Common.{
  ℕ, ◌+◌, ◌<◌, ◌≡◌, ◌≢◌, refl, ap, ◌∙◌, false, none, some, List, [], ◌∷◌, ◌++◌, u64_mod, add64,
  add64_lem, ltb, leb, ◌==◌, if◌then◌else◌, Option-cases, inl, inr, length, arith,
}
use jmdn_fast_sync.Wal.Log.{Disk}
use jmdn_fast_sync.Wal.Types.{Entry, Event}
use jmdn_fast_sync.Wal.Operations.{Wal, Metadata, new_wal, write_entries, flush_buffer, write_event}
use jmdn_fast_sync.Wal.Operations.Invariant.{IsValid}
use jmdn_fast_sync.Wal.Operations.Events.{entry_of, added, write_event-serialized, returned_room}

module _ (disk : Disk) where
  open disk use {Log, last_index, write, marshal, write_order, write_last}

  write-refused :
      (l : Log) (e : Entry) → e.lsn ≢ last_index l + 1 → write l e.lsn (marshal e) ≡ none
  write-refused l e gap = elim (Option-cases (write l e.lsn (marshal e))) [
    | inl refused ↦ refused
    | inr (l', wrote) ↦ absurd (gap (write_order l e.lsn (marshal e) l' wrote))
  ]

  -- The flush fails and changes nothing, so that every later one fails too.
  flush_buffer-stuck :
      (w : Wal Log) (e : Entry) (es : List Entry)
      → w.buffer ≡ e ∷ es
      → e.lsn ≢ last_index w.log + 1
      → flush_buffer disk w ≡ (w, false)
  unfolding flush_buffer write_entries
  flush_buffer-stuck w e es b gap =
      let some_left : (length w.buffer == 0) ≡ false = ap (λ u. length u == 0) b ∙ ground arith in
      let refused : write_entries disk w.log w.last_flushed_lsn w.buffer
          ≡ (w.log, w.last_flushed_lsn, false) =
        ap (write_entries disk w.log w.last_flushed_lsn) b
        ∙ rw (write-refused w.log e gap, write_entries) in
      rw some_left (rw refused refl)

  -- The log's counter does not stand at the last index on disk, and nothing is buffered: after one more
  -- event, which does not fill the buffer, no flush succeeds and nothing is written.
  write_event-out_of_step :
      (w : Wal Log) (event : Event) (payload : List ℕ) (now : ℕ)
      → w.buffer ≡ []
      → 1 < w.batch_size
      → w.current_lsn + 1 < u64_mod
      → w.current_lsn ≢ last_index w.log
      → event.serialized ≡ some payload
      → let w' = (write_event disk w event now).0 in flush_buffer disk w' ≡ (w', false)
  write_event-out_of_step w event payload now b room small gap ser =
      let n = add64 w.current_lsn 1 in
      let e = entry_of disk event payload n now in
      let one : (added disk w e).buffer ≡ e ∷ [] = ap (λ u. u ++ e ∷ []) b in
      let free : leb w.batch_size (length (added disk w e).buffer) ≡ false =
        ap (λ u. leb w.batch_size (length u)) one ∙ ground arith in
      let step : (write_event disk w event now).0 ≡ added disk w e =
        ap (λ r. r.0) (write_event-serialized disk w event payload now ser)
        ∙ ap (λ r. r.0) (returned_room disk (added disk w e) n free) in
      rw step (
        flush_buffer-stuck (added disk w e) e [] one
          (omega (arith, add64_lem w.current_lsn 1 small, gap)))

  -- An event that cannot be serialised, written to a valid log with an empty buffer and a counter that is
  -- not near its end, uses up an LSN: after
  -- the next event, which does not fill the buffer, no flush succeeds, and each leaves the log as it is.
  pub write_event-unserialised :
      (w : Wal Log) (bad good : Event) (payload : List ℕ) (now later : ℕ)
      → IsValid disk w
      → w.buffer ≡ []
      → 1 < w.batch_size
      → w.current_lsn + 2 < u64_mod
      → bad.serialized ≡ none
      → good.serialized ≡ some payload
      → let w' = (write_event disk (write_event disk w bad now).0 good later).0 in
        flush_buffer disk w' ≡ (w', false)
  write_event-unserialised w bad good payload now later v b room small ser ser' =
      let n = add64_lem w.current_lsn 1 (omega arith) in
      let drawn = record w { current_lsn = add64 w.current_lsn 1 } in
      let step : (write_event disk w bad now).0 ≡ drawn = unfold write_event in rw ser in
      rw step (
        write_event-out_of_step drawn good payload later b room (omega (arith, n))
          (let z = ap length b in omega (arith, n, v.at_end, v.counted, z)) ser')

  -- A log that is opened with a metadata file whose LSN is not the last index on disk, as after a crash
  -- between the writes of a flush and `saveLSN`, and which is not at its end: after an event, which does not fill the buffer, no
  -- flush succeeds, and each leaves the log as it is.
  pub new_wal-stale_metadata :
      (log : Log) (m : Metadata) (markers : List ℕ) (size now : ℕ) (event : Event)
      (payload : List ℕ)
      → m.current_lsn ≢ last_index log
      → 1 < size
      → m.current_lsn + 1 < u64_mod
      → event.serialized ≡ some payload
      → let w' = (write_event disk (new_wal disk log (some m) markers size) event now).0 in
        flush_buffer disk w' ≡ (w', false)
  unfolding new_wal
  new_wal-stale_metadata log m markers size now event payload gap room small ser =
      write_event-out_of_step (new_wal disk log (some m) markers size) event payload now refl
        (ground arith) small gap ser

  -- A flush that writes its first entry and fails at the second: the entries stay in the buffer and no
  -- later flush succeeds, and each leaves the log as it is.
  pub flush_buffer-partial :
      (w : Wal Log) (e e' : Entry) (es : List Entry) (log : Log)
      → IsValid disk w
      → w.buffer ≡ e ∷ e' ∷ es
      → write w.log e.lsn (marshal e) ≡ some log
      → write log e'.lsn (marshal e') ≡ none
      → let w' = (flush_buffer disk w).0 in
        ((flush_buffer disk w).1 ≡ false) × (flush_buffer disk w' ≡ (w', false))
  unfolding flush_buffer write_entries
  flush_buffer-partial w e e' es log v b first second =
      let some_left : (length w.buffer == 0) ≡ false = ap (λ u. length u == 0) b ∙ ground arith in
      let flushed = if ltb w.last_flushed_lsn e.lsn then e.lsn else w.last_flushed_lsn in
      let partial : write_entries disk w.log w.last_flushed_lsn w.buffer ≡ (log, flushed, false) =
        ap (write_entries disk w.log w.last_flushed_lsn) b
        ∙ rw (first, write_entries) (rw (second, write_entries) refl) in
      let left = record w { log = log; last_flushed_lsn = flushed } in
      let step : flush_buffer disk w ≡ (left, false) = rw some_left (rw partial refl) in
      rw step (
        refl,
        flush_buffer-stuck left e (e' ∷ es) b
            (omega (arith, write_last w.log e.lsn (marshal e) log first)),
      )
