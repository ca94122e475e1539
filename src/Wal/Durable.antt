-- ===== src/Wal/Durable.antt =====
-- The pair of calls by which the synchronisation logs an event before it changes the database:
-- WriteEvent, then Flush, with the return on the first error.
use jmdn_fast_sync.Common.{
  ℕ, ◌+◌, ◌<◌, ◌≡◌, ◌∙◌, Bool, true, false, Option, none, some, List, [], Option-cases, inl, inr,
  u64_mod, arith,
}
use jmdn_fast_sync.Wal.Log.{Disk}
use jmdn_fast_sync.Wal.Operations.{Wal, write_event, flush_buffer, get_event}
use jmdn_fast_sync.Wal.Operations.Events.{entry_of, write_event_lem}
use jmdn_fast_sync.Wal.Operations.Invariant.{IsValid, flush_buffer-Flushed}
use jmdn_fast_sync.Wal.Operations.Reads.{get_event-flush_buffer}
use jmdn_fast_sync.Wal.Types.{Event}

module _ (disk : Disk) where
  open disk use {Log}

  unfoldable pub log_event : Wal Log → Event → ℕ → Wal Log × Bool
  log_event w event now =
      let (w', lsn) = write_event disk w event now in
      elim lsn [ none ↦ (w', false) | some n ↦ flush_buffer disk w' ]

  -- When it succeeds from a valid log whose counter is not at its end, for an event that can be
  -- serialised: the log is valid, its buffer is empty and everything is on disk, and the event is read
  -- at the LSN that follows.
  pub log_event_lem :
      (w : Wal Log) (event : Event) (payload : List ℕ) (now : ℕ)
      → IsValid disk w
      → w.current_lsn + 1 < u64_mod
      → event.serialized ≡ some payload
      → (log_event w event now).1 ≡ true
      → let w' = (log_event w event now).0 in
        let lsn = w.current_lsn + 1 in
        IsValid disk w'
        × (w'.buffer ≡ [])
        × (w'.last_flushed_lsn ≡ lsn)
        × (get_event disk w' lsn ≡ some (entry_of disk event payload lsn now))
  unfolding log_event
  log_event_lem w event payload now v small ser ok = elim (Option-cases wrote.1) [
    | inl failed ↦ cc (rw (failed, log_event) at ok)
    | inr (lsn, returned) ↦
        let (valid, next, counter, reads) =
          write_event_lem disk w event payload now lsn v small ser returned in
        let flushed : (flush_buffer disk wrote.0).1 ≡ true = rw (returned, log_event) at ok in
        let f = flush_buffer-Flushed disk wrote.0 valid flushed in
        rw (returned, log_event)
          (
            f.valid,
            f.emptied,
            f.all_flushed ∙ counter ∙ next,
            rw (← next) (
                get_event-flush_buffer disk wrote.0 lsn (entry_of disk event payload lsn now) valid
                  flushed (omega (arith, counter)) reads),
          )
  ]
    where
      wrote : Wal Log × Option ℕ
      wrote = write_event disk w event now
