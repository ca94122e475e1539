-- ===== src/Wal/Operations/Invariant.antt =====
-- The state that the log keeps while nothing fails: the buffered entries carry the LSNs that follow the
-- last index on disk, and the counter stands at the last of them.
use jmdn_fast_sync.Common.{
  ℕ, ◌+◌, ◌≤◌, ◌≡◌, refl, sym, ap, ◌∙◌, Bool, true, false, some, List, [], ◌∷◌, ◌++◌, ltb, ◌==◌,
  if◌then◌else◌, Bool-cases, Option-cases, inl, inr, length, All, arith,
}
use jmdn_fast_sync.Wal.Log.{Disk}
use jmdn_fast_sync.Wal.Types.{Entry}
use jmdn_fast_sync.Wal.Operations.{Wal, save_lsn, write_entries, flush_buffer, read_entry}

-- Entries with the LSNs from `n` on.
abbrev pub Numbered : ℕ → List Entry → Type 0
Numbered n [] = Unit
Numbered n (e ∷ es) = (e.lsn ≡ n) × Numbered (n + 1) es

pub Numbered-push :
    (es : List Entry) (n m : ℕ) (e : Entry)
    → Numbered n es
    → e.lsn ≡ m
    → m ≡ n + length es
    → Numbered n (es ++ e ∷ [])
Numbered-push [] n m e h at k = (omega arith, tt)
Numbered-push (x ∷ es) n m e h at k = (h.0, Numbered-push es (n + 1) m e h.1 at (omega arith))

pub empty_of_length {ℓ} : {A : Type ℓ} (xs : List A) → (length xs == 0) ≡ true → xs ≡ []
empty_of_length [] h = refl
empty_of_length (x ∷ xs) h = absurd (ground arith)

module _ (disk : Disk) where
  open disk use {
    Log, last_index, read, write, write_last, read-write_self, read-write_ne, marshal, unmarshal,
    unmarshal-marshal, save_ok,
  }

  pub record IsValid (w : Wal Log) : Type 0 where
    pub at_end : last_index w.log ≡ w.last_flushed_lsn
    pub consecutive : Numbered (w.last_flushed_lsn + 1) w.buffer
    pub counted : w.current_lsn ≡ w.last_flushed_lsn + length w.buffer

  -- The entry can be read back at its LSN.
  abbrev pub Stored : Log → Entry → Type 0
  Stored log e = read_entry disk log e.lsn ≡ some e

  -- What the loop of a flush leaves when every write succeeds.
  pub record Wrote (log : Log) (flushed : ℕ) (es : List Entry) (r : Log × ℕ × Bool) : Type 0 where
    pub last : last_index r.0 ≡ flushed + length es
    pub counter : r.1 ≡ flushed + length es
    pub stored : All (Stored r.0) es
    pub kept : (j : ℕ) → j ≤ flushed → read r.0 j ≡ read log j

  abbrev written : Log → ℕ → List Entry → Log × ℕ × Bool
  written = write_entries disk

  pub read_entry-at :
      (log log' : Log) (e : Entry) → read log' e.lsn ≡ read log e.lsn → Stored log e → Stored log' e
  unfolding read_entry
  read_entry-at log log' e h s = rw (h, read_entry) s

  write_entries-Wrote :
      (es : List Entry) (log : Log) (flushed : ℕ)
      → last_index log ≡ flushed
      → Numbered (flushed + 1) es
      → (written log flushed es).2 ≡ true
      → Wrote log flushed es (written log flushed es)
  unfolding write_entries read_entry
  write_entries-Wrote [] log flushed end lsns ok = record {
    last = omega arith;
    counter = omega arith;
    stored = tt;
    kept = λ j _. refl;
  }
  write_entries-Wrote (e ∷ es) log flushed end lsns ok =
      elim (Option-cases (write log e.lsn (marshal e))) [
        | inl failed ↦ cc (rw (failed, write_entries) at ok)
        | inr (log', wrote) ↦
            let at : e.lsn ≡ flushed + 1 = lsns.0 in
            let counted : (if ltb flushed e.lsn then e.lsn else flushed) ≡ flushed + 1 =
              ground arith in
            let ih =
              write_entries-Wrote es log' (flushed + 1)
                (write_last log e.lsn (marshal e) log' wrote ∙ at) lsns.1
                (rw counted at (rw (wrote, write_entries) at ok)) in
            rw (wrote, write_entries)
              (rw counted (record {
                last = omega (arith, ih.last);
                counter = omega (arith, ih.counter);
                stored = (
                  read_entry-at log' (written log' (flushed + 1) es).0 e
                      (ih.kept e.lsn (omega arith))
                      (rw (read-write_self log e.lsn (marshal e) log' wrote, read_entry)
                        (unmarshal-marshal e)),
                  ih.stored,
                );
                kept = λ j h.
                    ih.kept j (omega arith)
                    ∙ read-write_ne log e.lsn j (marshal e) log' wrote (omega arith);
              }))
      ]

  -- What a flush that succeeds from a valid state leaves.
  pub record Flushed (w w' : Wal Log) : Type 0 where
    pub valid : IsValid w'
    pub emptied : w'.buffer ≡ []
    pub markers : w'.checkpoints ≡ w.checkpoints
    pub all_flushed : w'.last_flushed_lsn ≡ w.current_lsn
    pub counter : w'.current_lsn ≡ w.current_lsn
    pub stored : All (Stored w'.log) w.buffer
    pub kept : (j : ℕ) → j ≤ w.last_flushed_lsn → read w'.log j ≡ read w.log j

  -- A flush that succeeds from a valid state: the log is valid again, with the same counter and markers
  -- and an empty buffer; every entry that was buffered can be read at its LSN; what was on disk is
  -- unchanged; and the last flushed LSN is the current one.
  pub flush_buffer-Flushed :
      (w : Wal Log) → IsValid w → (flush_buffer disk w).1 ≡ true → Flushed w (flush_buffer disk w).0
  unfolding flush_buffer save_lsn
  flush_buffer-Flushed w v ok = elim (Bool-cases (length w.buffer == 0)) [
    | inl none_left ↦
        let e : w.buffer ≡ [] = empty_of_length w.buffer none_left in
        rw none_left (record {
          valid = v;
          emptied = e;
          markers = refl;
          all_flushed = let z = ap length e in omega (arith, v.counted, z);
          counter = refl;
          stored = rw e tt;
          kept = λ j _. refl;
        })
    | inr some_left ↦ flush_some some_left (written w.log w.last_flushed_lsn w.buffer) refl
  ]
    where
      flush_some :
          (length w.buffer == 0) ≡ false
          → (r : Log × ℕ × Bool) → written w.log w.last_flushed_lsn w.buffer ≡ r
          → Flushed w (flush_buffer disk w).0
      flush_some p (log, n, false) e = cc (rw e at (rw (p, flush_buffer) at ok))
      flush_some p (log, n, true) e = elim (Bool-cases (save_ok w.current_lsn)) [
        | inl saved ↦
            let wrote =
              write_entries-Wrote w.buffer w.log w.last_flushed_lsn v.at_end v.consecutive
                (ap (λ r. r.2) e) in
            let wrote' : Wrote w.log w.last_flushed_lsn w.buffer (log, n, true) = rw e at wrote in
            rw (p, flush_buffer)
              (rw e (
                rw saved (record {
                  valid = record {
                    at_end = wrote'.last ∙ sym wrote'.counter;
                    consecutive = tt;
                    counted = omega (arith, wrote'.counter, v.counted);
                  };
                  emptied = refl;
                  markers = refl;
                  all_flushed = omega (arith, wrote'.counter, v.counted);
                  counter = refl;
                  stored = wrote'.stored;
                  kept = wrote'.kept;
                })))
        | inr failed ↦ cc (rw failed at (rw e at (rw (p, flush_buffer) at ok)))
      ]
