-- ===== src/Wal/Operations/Checkpoints.antt =====
-- `CreateCheckpoint`: what a checkpoint leaves on disk, and the rotation of the markers.
use jmdn_fast_sync.Common.{
  ℕ, ◌+◌, ◌≤◌, ◌≡◌, refl, ap₂, subst, All, All-imp, ap, sym, ◌∙◌, some, List, [], ◌∷◌, ltb, leb,
  ◌==◌, Bool-cases, Option-cases, inl, inr, length, arith,
}
use jmdn_fast_sync.Wal.Log.{Disk}
use jmdn_fast_sync.Wal.Types.{max_snapshot_limit}
use jmdn_fast_sync.Wal.Operations.{
  Wal, flush_buffer, truncate_before, mark, rotate, create_checkpoint,
}
use jmdn_fast_sync.Wal.Operations.Invariant.{
  IsValid, Numbered, Stored, read_entry-at, flush_buffer-Flushed,
}

module _ (disk : Disk) where
  open disk use {
    Log, first_index, last_index, read, truncate_front, truncate_last, read-truncate, mark_ok,
  }

  length-mark : (lsn : ℕ) (ms : List ℕ) → length (mark disk lsn ms) ≤ length ms + 1
  unfolding mark
  length-mark lsn [] = omega arith
  length-mark lsn (m ∷ ms) = ground (arith, length-mark lsn ms)

  -- Removing the front of the log changes neither its end nor what follows the cut.
  record Cut (lsn : ℕ) (w w' : Wal Log) : Type 0 where
    end : last_index w'.log ≡ last_index w.log
    rest : w' ≡ record w { log = w'.log }
    kept : (j : ℕ) → lsn ≤ j → read w'.log j ≡ read w.log j

  truncate_before-Cut : (w : Wal Log) (lsn : ℕ) → Cut lsn w (truncate_before disk w lsn).0
  unfolding truncate_before
  truncate_before-Cut w lsn = elim (Bool-cases (lsn == 0)) [
    | inl z ↦ rw (z, truncate_before) (record { end = refl; rest = refl; kept = λ j _. refl })
    | inr nz ↦ elim (Bool-cases (leb lsn (first_index w.log))) [
      | inl early ↦
          rw (nz, truncate_before)
            (rw (early, truncate_before) (record { end = refl; rest = refl; kept = λ j _. refl }))
      | inr late ↦ elim (Option-cases (truncate_front w.log lsn)) [
        | inl failed ↦
            rw (nz, truncate_before)
              (rw (late, truncate_before)
                (rw (failed, truncate_before)
                  (record { end = refl; rest = refl; kept = λ j _. refl })))
        | inr (log, cut) ↦
            rw (nz, truncate_before)
              (rw (late, truncate_before)
                (rw (cut, truncate_before)
                  (record {
                    end = truncate_last w.log lsn log cut;
                    rest = refl;
                    kept = λ j h. read-truncate w.log lsn j log cut h;
                  })))
      ]
    ]
  ]

  -- What a checkpoint that returns `lsn` leaves of the state that the flush left.
  record Rotated (w w' : Wal Log) (markers : List ℕ) : Type 0 where
    end : last_index w'.log ≡ last_index w.log
    buffer : w'.buffer ≡ w.buffer
    counter : w'.current_lsn ≡ w.current_lsn
    flushed : w'.last_flushed_lsn ≡ w.last_flushed_lsn
    limited : length w'.checkpoints ≤ max_snapshot_limit
    kept :
        (oldest j : ℕ) (ms : List ℕ)
        → markers ≡ oldest ∷ ms
        → oldest ≤ j
        → read w'.log j ≡ read w.log j

  rotate-Rotated :
      (w : Wal Log) (lsn n : ℕ) (markers : List ℕ)
      → w.checkpoints ≡ markers
      → length markers ≤ max_snapshot_limit + 1
      → (rotate disk w lsn markers).1 ≡ some n
      → Rotated w (rotate disk w lsn markers).0 markers × (n ≡ lsn)
  unfolding rotate
  rotate-Rotated w lsn n [] here few ok = (
    record {
      end = refl;
      buffer = refl;
      counter = refl;
      flushed = refl;
      limited = rw here (omega arith);
      kept = λ oldest j ms e _. refl;
    },
    (let e : some lsn ≡ some n = ok in cc),
  )
  rotate-Rotated w lsn n (oldest ∷ markers) here few ok =
      elim (Bool-cases (ltb max_snapshot_limit (length (oldest ∷ markers)))) [
        | inr room ↦
            rw (room, rotate)
              (
                record {
                  end = refl;
                  buffer = refl;
                  counter = refl;
                  flushed = refl;
                  limited = rw here (ground arith);
                  kept = λ o j ms e _. refl;
                },
                (let e : some lsn ≡ some n = rw (room, rotate) at ok in cc),
              )
        | inl full ↦ elim (Bool-cases (truncate_before disk w oldest).1) [
          | inr failed ↦ cc (rw (failed, rotate) at (rw (full, rotate) at ok))
          | inl cut ↦ elim (Bool-cases (mark_ok oldest)) [
            | inr failed ↦
                cc (rw (failed, rotate) at (rw (cut, rotate) at (rw (full, rotate) at ok)))
            | inl removed ↦
                let c = truncate_before-Cut w oldest in
                rw (full, rotate)
                  (rw (cut, rotate)
                    (rw (removed, rotate)
                      (
                        record {
                          end = c.end;
                          buffer = ap (λ u. u.buffer) c.rest;
                          counter = ap (λ u. u.current_lsn) c.rest;
                          flushed = ap (λ u. u.last_flushed_lsn) c.rest;
                          limited = ground arith;
                          kept = λ o j ms e h. c.kept j (let same : oldest ≡ o = cc in omega arith);
                        },
                        (let e : some lsn ≡ some n =
                              rw (removed, rotate) at
                                (rw (cut, rotate) at (rw (full, rotate) at ok)) in
                            cc),
                      )))
          ]
        ]
      ]

  -- From a valid state with at most ten markers, when `CreateCheckpoint` returns an LSN: it is the
  -- current one; the new state is valid, has an empty buffer, the same counter and at most ten markers;
  -- and from the oldest marker on, the new one included, every entry that was buffered can be read at
  -- its LSN, and what was on disk is unchanged.
  pub create_checkpoint_lem :
      (w : Wal Log) (lsn oldest : ℕ) (ms : List ℕ)
      → IsValid disk w
      → length w.checkpoints ≤ max_snapshot_limit
      → (create_checkpoint disk w).1 ≡ some lsn
      → mark disk w.current_lsn w.checkpoints ≡ oldest ∷ ms
      → let w' = (create_checkpoint disk w).0 in
        (lsn ≡ w.current_lsn)
        × IsValid disk w'
        × (w'.buffer ≡ [])
        × (w'.current_lsn ≡ w.current_lsn)
        × (length w'.checkpoints ≤ max_snapshot_limit)
        × All (λ e. oldest ≤ e.lsn → Stored disk w'.log e) w.buffer
        × ((j : ℕ) → oldest ≤ j → j ≤ w.last_flushed_lsn → read w'.log j ≡ read w.log j)
  unfolding create_checkpoint
  create_checkpoint_lem w lsn oldest ms v few ok marks = elim (Bool-cases (flush_buffer disk w).1) [
    | inr failed ↦ cc (rw (failed, create_checkpoint) at ok)
    | inl flushed ↦ elim (Bool-cases (mark_ok (flush_buffer disk w).0.last_flushed_lsn)) [
      | inr failed ↦ cc (rw (failed, create_checkpoint) at (rw (flushed, create_checkpoint) at ok))
      | inl marked ↦
          let f = flush_buffer-Flushed disk w v flushed in
          let u = (flush_buffer disk w).0 in
          let listed = mark disk u.last_flushed_lsn u.checkpoints in
          let same : listed ≡ mark disk w.current_lsn w.checkpoints =
            ap₂ (mark disk) f.all_flushed f.markers in
          let room : length listed ≤ max_snapshot_limit + 1 =
            omega (arith, length-mark u.last_flushed_lsn u.checkpoints, ap length f.markers) in
          let ok' = rw (marked, create_checkpoint) at (rw (flushed, create_checkpoint) at ok) in
          let r =
            rotate-Rotated (record u { checkpoints = listed }) u.last_flushed_lsn lsn listed refl
              room ok' in
          let w' = (rotate disk (record u { checkpoints = listed }) u.last_flushed_lsn listed).0 in
          rw (flushed, create_checkpoint)
            (rw (marked, create_checkpoint)
              (
                r.1 ∙ f.all_flushed,
                record {
                  at_end = r.0.end ∙ f.valid.at_end ∙ sym r.0.flushed;
                  consecutive =
                      subst (Numbered (w'.last_flushed_lsn + 1)) (sym (r.0.buffer ∙ f.emptied)) tt;
                  counted =
                      omega
                        (arith, r.0.counter, r.0.flushed, ap length r.0.buffer, f.valid.counted);
                },
                r.0.buffer ∙ f.emptied,
                r.0.counter ∙ f.counter,
                r.0.limited,
                All-imp (Stored disk u.log) (λ e. oldest ≤ e.lsn → Stored disk w'.log e)
                    (λ e s h.
                      read_entry-at disk u.log w'.log e (r.0.kept oldest e.lsn ms (same ∙ marks) h)
                        s)
                    w.buffer f.stored,
                λ j h k. r.0.kept oldest j ms (same ∙ marks) h ∙ f.kept j k,
              ))
    ]
  ]
