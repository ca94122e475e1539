-- ===== src/Wal/Operations/Events.antt =====
-- `WriteEvent`, `GetEvent` and `NewWAL`: what was written can be read, before and after a flush and by
-- a log that is opened again.
use jmdn_fast_sync.Common.{
  ℕ, ◌+◌, ◌<◌, ◌≡◌, ◌≢◌, refl, sym, ap, subst, ◌∙◌, true, false, Option, none, some, List, [], ◌∷◌,
  ◌++◌, u64_mod, add64, add64_lem, leb, if◌then◌else◌, Bool-cases, inl, inr, length, length-append,
  All-of_append, arith,
}
use jmdn_fast_sync.Wal.Log.{Disk}
use jmdn_fast_sync.Wal.Types.{Entry, Event}
use jmdn_fast_sync.Wal.Operations.{
  Wal, save_lsn, load_lsn, new_wal, flush_buffer, write_event, find_entry, read_entry, get_event,
}
use jmdn_fast_sync.Wal.Operations.Invariant.{
  Numbered, Numbered-push, IsValid, Stored, flush_buffer-Flushed,
}

module _ (disk : Disk) where
  open disk use {Log, last_index}

  find_entry-push :
      (es : List Entry) (n m : ℕ) (e : Entry)
      → Numbered n es
      → e.lsn ≡ m
      → m ≡ n + length es
      → find_entry disk m (es ++ e ∷ []) ≡ some e
  unfolding find_entry
  find_entry-push [] n m e h at k = ground arith
  find_entry-push (x ∷ es) n m e h at k =
      ground (arith, find_entry-push es (n + 1) m e h.1 at (omega arith))

  abbrev pub entry_of : Event → List ℕ → ℕ → ℕ → Entry
  entry_of event payload lsn now = record {
    wal_type = event.event_type;
    payload = payload;
    lsn = lsn;
    timestamp = now;
  }

  -- Drawing an LSN and adding the entry to the buffer.
  abbrev pub added : Wal Log → Entry → Wal Log
  added w e = record w { current_lsn = add64 w.current_lsn 1; buffer = w.buffer ++ e ∷ [] }

  added-IsValid :
      (w : Wal Log) (e : Entry)
      → IsValid disk w
      → w.current_lsn + 1 < u64_mod
      → e.lsn ≡ add64 w.current_lsn 1
      → IsValid disk (added w e)
  added-IsValid w e v small at =
      let n = add64_lem w.current_lsn 1 small in
      record {
        at_end = v.at_end;
        consecutive =
            Numbered-push w.buffer (w.last_flushed_lsn + 1) (add64 w.current_lsn 1) e v.consecutive
              at (omega (arith, n, v.counted));
        counted = omega (arith, n, v.counted, length-append w.buffer (e ∷ []));
      }

  -- What `WriteEvent` returns for an event that is serialised, once its entry was added.
  abbrev pub returned : Wal Log → ℕ → Wal Log × Option ℕ
  returned a lsn =
      if leb a.batch_size (length a.buffer)
      then ((flush_buffer disk a).0, if (flush_buffer disk a).1 then some lsn else none)
      else (a, some lsn)

  pub write_event-serialized :
      (w : Wal Log) (event : Event) (payload : List ℕ) (now : ℕ)
      → event.serialized ≡ some payload
      → write_event disk w event now
        ≡ returned
            (added w (entry_of event payload (add64 w.current_lsn 1) now))
            (add64 w.current_lsn 1)
  unfolding write_event
  write_event-serialized w event payload now ser = rw (ser, write_event)

  pub returned_room :
      (a : Wal Log) (n : ℕ)
      → leb a.batch_size (length a.buffer) ≡ false
      → returned a n ≡ (a, some n)
  returned_room a n h = rw h

  -- A valid state that holds an entry in its buffer, or has it on disk, and numbers it `lsn`.
  record Holds (w : Wal Log) (e : Entry) (lsn : ℕ) : Type 0 where
    valid : IsValid disk w
    counter : w.current_lsn ≡ lsn
    readable : get_event disk w lsn ≡ some e

  returned-Holds :
      (w : Wal Log) (e : Entry) (lsn : ℕ)
      → IsValid disk w
      → w.current_lsn + 1 < u64_mod
      → e.lsn ≡ add64 w.current_lsn 1
      → (returned (added w e) (add64 w.current_lsn 1)).1 ≡ some lsn
      → Holds (returned (added w e) (add64 w.current_lsn 1)).0 e (add64 w.current_lsn 1)
  unfolding get_event
  returned-Holds w e lsn v small at ok =
      elim (Bool-cases (leb w.batch_size (length (added w e).buffer))) [
        | inr room ↦ rw room (record {
          valid = av;
          counter = refl;
          readable =
              rw
                (
                  find_entry-push w.buffer (w.last_flushed_lsn + 1) (add64 w.current_lsn 1) e
                      v.consecutive at (omega (arith, v.counted, add64_lem w.current_lsn 1 small)),
                  get_event,
                )
                refl;
        })
        | inl full ↦ elim (Bool-cases (flush_buffer disk (added w e)).1) [
          | inr failed ↦ cc (rw failed at (rw full at ok))
          | inl flushed ↦
              let f = flush_buffer-Flushed disk (added w e) av flushed in
              let s =
                All-of_append (Stored disk (flush_buffer disk (added w e)).0.log) w.buffer (e ∷ [])
                  f.stored in
              rw full (record {
                valid = f.valid;
                counter = f.counter;
                readable = from_disk (flush_buffer disk (added w e)).0 f.emptied s.1.0;
              })
        ]
      ]
    where
      av : IsValid disk (added w e)
      av = added-IsValid w e v small at

      from_disk :
          (u : Wal Log)
          → u.buffer ≡ []
          → Stored disk u.log e
          → get_event disk u (add64 w.current_lsn 1) ≡ some e
      from_disk u b s =
          ap
            (λ es. elim (find_entry disk (add64 w.current_lsn 1) es) [
              | some entry ↦ some entry
              | none ↦ read_entry disk u.log (add64 w.current_lsn 1)
            ])
            b
          ∙ ap (read_entry disk u.log) (sym at)
          ∙ s

  returned-lsn : (a : Wal Log) (n lsn : ℕ) → (returned a n).1 ≡ some lsn → n ≡ lsn
  returned-lsn a n lsn ok = elim (Bool-cases (leb a.batch_size (length a.buffer))) [
    | inr room ↦ let e : some n ≡ some lsn = rw room at ok in cc
    | inl full ↦ elim (Bool-cases (flush_buffer disk a).1) [
      | inr failed ↦ cc (rw failed at (rw full at ok))
      | inl flushed ↦ let e : some n ≡ some lsn = rw flushed at (rw full at ok) in cc
    ]
  ]

  -- The metadata file that a flush leaves.
  metadata-flush_buffer :
      (w : Wal Log)
      → length w.buffer ≢ 0
      → (flush_buffer disk w).1 ≡ true
      → let w' = (flush_buffer disk w).0 in
        w'.metadata
        ≡ some (record { current_lsn = w'.current_lsn; last_flushed_lsn = w'.last_flushed_lsn })
  unfolding flush_buffer save_lsn
  metadata-flush_buffer w some_left ok = ground arith

  -- From a valid state whose counter is not at its end, when `WriteEvent` of an event that can be
  -- serialised returns an LSN: it is the next one, the new state is valid
  -- and stands at it, and `GetEvent` of it returns the event's entry, whether or not the write flushed
  -- the buffer.
  pub write_event_lem :
      (w : Wal Log) (event : Event) (payload : List ℕ) (now lsn : ℕ)
      → IsValid disk w
      → w.current_lsn + 1 < u64_mod
      → event.serialized ≡ some payload
      → (write_event disk w event now).1 ≡ some lsn
      → IsValid disk (write_event disk w event now).0
        × (lsn ≡ w.current_lsn + 1)
        × ((write_event disk w event now).0.current_lsn ≡ lsn)
        × (get_event disk (write_event disk w event now).0 lsn
            ≡ some (entry_of event payload lsn now))
  write_event_lem w event payload now lsn v small ser ok =
      let n = add64 w.current_lsn 1 in
      let e = entry_of event payload n now in
      let step = write_event-serialized w event payload now ser in
      let ok' : (returned (added w e) n).1 ≡ some lsn = sym (ap (λ r. r.1) step) ∙ ok in
      let same : n ≡ lsn = returned-lsn (added w e) n lsn ok' in
      let h = returned-Holds w e lsn v small refl ok' in
      rw step (
        h.valid,
        omega (arith, add64_lem w.current_lsn 1 small),
        h.counter ∙ same,
        subst
            (λ k. get_event disk (returned (added w e) n).0 k ≡ some (entry_of event payload k now))
            same h.readable,
      )

  -- A flush that wrote something: the log that is opened again with the log and the metadata file that
  -- it left is valid, has an empty buffer and goes on from the same LSN.
  pub new_wal-flush_buffer :
      (w : Wal Log) (markers : List ℕ) (size : ℕ)
      → IsValid disk w
      → length w.buffer ≢ 0
      → (flush_buffer disk w).1 ≡ true
      → let w' = (flush_buffer disk w).0 in
        let w'' = new_wal disk w'.log w'.metadata markers size in
        IsValid disk w'' × (w''.buffer ≡ []) × (w''.current_lsn ≡ w.current_lsn)
  unfolding new_wal load_lsn
  new_wal-flush_buffer w markers size v some_left ok =
      let f = flush_buffer-Flushed disk w v ok in
      let m = metadata-flush_buffer w some_left ok in
      rw (m, new_wal)
        (
          record {
            at_end = f.valid.at_end;
            consecutive = tt;
            counted = omega (arith, f.all_flushed, f.counter);
          },
          refl,
          f.counter,
        )
