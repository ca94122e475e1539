-- ===== src/Wal/Operations/Reads.antt =====
-- `GetEvent` before and after a flush.
use jmdn_fast_sync.Common.{
  leb, ℕ, ◌+◌, ◌≤◌, ◌≡◌, ap, sym, ◌∙◌, true, none, some, List, [], ◌∷◌, ◌==◌, Bool-cases,
  Option-cases, inl, inr, length, All, arith,
}
use jmdn_fast_sync.Wal.Log.{Disk}
use jmdn_fast_sync.Wal.Types.{Entry}
use jmdn_fast_sync.Wal.Operations.{Wal, flush_buffer, find_entry, read_entry, get_event}
use jmdn_fast_sync.Wal.Operations.Invariant.{
  Numbered, IsValid, Stored, Flushed, flush_buffer-Flushed,
}

module _ (disk : Disk) where
  open disk use {Log, read}

  find_entry-Numbered :
      (es : List Entry) (k n : ℕ)
      → Numbered k es
      → find_entry disk n es ≡ none
      → k ≤ n
      → k + length es ≤ n
  unfolding find_entry
  find_entry-Numbered [] k n h absent low = omega arith
  find_entry-Numbered (e ∷ es) k n h absent low = elim (Bool-cases (e.lsn == n)) [
    | inl same ↦ cc (rw same at absent)
    | inr other ↦
        let rest =
          find_entry-Numbered es (k + 1) n h.1 (rw other at absent) (ground (arith, h.0)) in
        omega (arith, rest)
  ]

  find_entry-Stored :
      (log : Log) (es : List Entry) (n : ℕ) (e : Entry)
      → All (Stored disk log) es
      → find_entry disk n es ≡ some e
      → read_entry disk log n ≡ some e
  unfolding find_entry
  find_entry-Stored log [] n e h found = cc
  find_entry-Stored log (x ∷ es) n e h found = elim (Bool-cases (x.lsn == n)) [
    | inl same ↦
        let at : x.lsn ≡ n = ground arith in
        let is : some x ≡ some e = rw same at found in ap (read_entry disk log) (sym at) ∙ h.0 ∙ is
    | inr other ↦ find_entry-Stored log es n e h.1 (rw other at found)
  ]

  read_entry-kept :
      (log log' : Log) (n : ℕ)
      → read log' n ≡ read log n
      → read_entry disk log' n ≡ read_entry disk log n
  unfolding read_entry
  read_entry-kept log log' n h = rw (h, read_entry)

  get_event-buffered :
      (w : Wal Log) (n : ℕ) (e : Entry)
      → find_entry disk n w.buffer ≡ some e
      → get_event disk w n ≡ some e
  unfolding get_event
  get_event-buffered w n e h = rw (h, get_event)

  get_event-stored :
      (w : Wal Log) (n : ℕ)
      → find_entry disk n w.buffer ≡ none
      → get_event disk w n ≡ read_entry disk w.log n
  unfolding get_event
  get_event-stored w n h = rw (h, get_event)

  -- A flush that succeeds from a valid state does not change what `GetEvent` returns for an LSN that was
  -- assigned before, where it returned an entry.
  pub get_event-flush_buffer :
      (w : Wal Log) (n : ℕ) (e : Entry)
      → IsValid disk w
      → (flush_buffer disk w).1 ≡ true
      → n ≤ w.current_lsn
      → get_event disk w n ≡ some e
      → get_event disk (flush_buffer disk w).0 n ≡ some e
  unfolding find_entry
  get_event-flush_buffer w n e v ok assigned reads =
      let f = flush_buffer-Flushed disk w v ok in
      let w' = (flush_buffer disk w).0 in
      get_event-stored w' n (ap (find_entry disk n) f.emptied) ∙ from_disk f
    where
      from_disk :
          Flushed disk w (flush_buffer disk w).0
          → read_entry disk (flush_buffer disk w).0.log n ≡ some e
      from_disk f = elim (Option-cases (find_entry disk n w.buffer)) [
        | inr (x, found) ↦
            find_entry-Stored (flush_buffer disk w).0.log w.buffer n x f.stored found
            ∙ sym (get_event-buffered w n x found)
            ∙ reads
        | inl absent ↦
            let low : n ≤ w.last_flushed_lsn = elim (Bool-cases (leb n w.last_flushed_lsn)) [
              | inl l ↦ ground arith
              | inr h ↦ absurd (
                  omega (
                    arith,
                    v.counted,
                    find_entry-Numbered w.buffer (w.last_flushed_lsn + 1) n v.consecutive absent
                        (ground arith),
                  ))
            ] in
            read_entry-kept w.log (flush_buffer disk w).0.log n (f.kept n low)
            ∙ sym (get_event-stored w n absent)
            ∙ reads
      ]
