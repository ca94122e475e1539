-- ===== src/Wal/Replay.antt =====
-- `ReplayEvents` and `ReplayEventsByType` of common/WAL/operations.go. A handler takes a state and an
-- entry to the next state, or fails.
use text.Mathlib.Text.{◌==◌ as str_eq}
use jmdn_fast_sync.Common.{
  ℕ, zero, suc, ◌+◌, ◌-◌, ◌≡◌, refl, ap, sym, ◌∙◌, Bool, true, false, Option, none, some, List, [],
  ◌∷◌, if◌then◌else◌, Bool-cases, ap₂, Option-cases, inl, inr, length, All,
}
use jmdn_fast_sync.Wal.Log.{Disk}
use jmdn_fast_sync.Wal.Operations.{Wal, read_entry}
use jmdn_fast_sync.Wal.Operations.Invariant.{Numbered, Stored}
use jmdn_fast_sync.Wal.Types.{
  Entry, WalType, type_text, header_sync, merkle_sync, prior_sync, data_sync, reconciliation, pots,
  account_sync,
}

-- `entry.Type == walType`
unfoldable pub is_of_type : WalType → Entry → Bool
is_of_type t entry = str_eq (type_text entry.wal_type) (type_text t)

-- Whether two types are the same.
abbrev pub is_type : WalType → WalType → Bool
is_type header_sync header_sync = true
is_type merkle_sync merkle_sync = true
is_type prior_sync prior_sync = true
is_type data_sync data_sync = true
is_type reconciliation reconciliation = true
is_type pots pots = true
is_type account_sync account_sync = true
is_type t u = false

-- The entries of a type.
abbrev pub of_type : WalType → List Entry → List Entry
of_type t [] = []
of_type t (e ∷ es) = if is_type t e.wal_type then e ∷ of_type t es else of_type t es

-- Types are the same when their texts are.
same_type : (t u : WalType) → str_eq (type_text u) (type_text t) ≡ is_type t u
same_type header_sync header_sync = refl
same_type header_sync merkle_sync = refl
same_type header_sync prior_sync = refl
same_type header_sync data_sync = refl
same_type header_sync reconciliation = refl
same_type header_sync pots = refl
same_type header_sync account_sync = refl
same_type merkle_sync header_sync = refl
same_type merkle_sync merkle_sync = refl
same_type merkle_sync prior_sync = refl
same_type merkle_sync data_sync = refl
same_type merkle_sync reconciliation = refl
same_type merkle_sync pots = refl
same_type merkle_sync account_sync = refl
same_type prior_sync header_sync = refl
same_type prior_sync merkle_sync = refl
same_type prior_sync prior_sync = refl
same_type prior_sync data_sync = refl
same_type prior_sync reconciliation = refl
same_type prior_sync pots = refl
same_type prior_sync account_sync = refl
same_type data_sync header_sync = refl
same_type data_sync merkle_sync = refl
same_type data_sync prior_sync = refl
same_type data_sync data_sync = refl
same_type data_sync reconciliation = refl
same_type data_sync pots = refl
same_type data_sync account_sync = refl
same_type reconciliation header_sync = refl
same_type reconciliation merkle_sync = refl
same_type reconciliation prior_sync = refl
same_type reconciliation data_sync = refl
same_type reconciliation reconciliation = refl
same_type reconciliation pots = refl
same_type reconciliation account_sync = refl
same_type pots header_sync = refl
same_type pots merkle_sync = refl
same_type pots prior_sync = refl
same_type pots data_sync = refl
same_type pots reconciliation = refl
same_type pots pots = refl
same_type pots account_sync = refl
same_type account_sync header_sync = refl
same_type account_sync merkle_sync = refl
same_type account_sync prior_sync = refl
same_type account_sync data_sync = refl
same_type account_sync reconciliation = refl
same_type account_sync pots = refl
same_type account_sync account_sync = refl

module _ (disk : Disk) {S : Type 0} where
  open disk use {Log, first_index, last_index, read}

  -- The loop over the indices, for as many as are left.
  unfoldable pub replay_entries : (S → Entry → Option S) → Log → ℕ → ℕ → S → Option S
  replay_entries handler log zero index s = some s
  replay_entries handler log (suc left) index s = elim (read_entry disk log index) [
    | none ↦ none
    | some entry ↦ elim (handler s entry) [
      | none ↦ none
      | some s' ↦ replay_entries handler log left (index + 1) s'
    ]
  ]

  unfoldable pub replay_events : (S → Entry → Option S) → Wal Log → S → Option S
  unfolding replay_entries
  replay_events handler w s =
      replay_entries handler w.log (last_index w.log + 1 - first_index w.log) (first_index w.log) s

  unfoldable pub replay_events_by_type : WalType → (S → Entry → Option S) → Wal Log → S → Option S
  unfolding replay_events is_of_type
  replay_events_by_type t handler w s =
      replay_events (λ s' entry. if is_of_type t entry then handler s' entry else some s') w s

  -- Running a handler over the entries of a list.
  unfoldable pub run : (S → Entry → Option S) → List Entry → S → Option S
  run handler [] s = some s
  run handler (e ∷ es) s = elim (handler s e) [ none ↦ none | some s' ↦ run handler es s' ]

  replay_entries_lem :
      (handler : S → Entry → Option S) (log : Log) (es : List Entry) (n : ℕ) (s : S)
      → Numbered n es
      → All (Stored disk log) es
      → replay_entries handler log (length es) n s ≡ run handler es s
  unfolding replay_entries run
  replay_entries_lem handler log [] n s h k = refl
  replay_entries_lem handler log (e ∷ es) n s h k =
      let at : read_entry disk log n ≡ some e = ap (read_entry disk log) (sym h.0) ∙ k.0 in
      elim (Option-cases (handler s e)) [
        | inl failed ↦ rw (at, replay_entries) (rw (failed, run) refl)
        | inr (s', next) ↦
            rw (at, replay_entries)
              (rw (next, run) (replay_entries_lem handler log es (n + 1) s' h.1 k.1))
      ]

  run-of_type :
      (t : WalType) (handler : S → Entry → Option S) (es : List Entry) (s : S)
      → run (λ s' entry. if is_of_type t entry then handler s' entry else some s') es s
        ≡ run handler (of_type t es) s
  unfolding run is_of_type
  run-of_type t handler [] s = refl
  run-of_type t handler (e ∷ es) s =
      let asked : is_of_type t e ≡ is_type t e.wal_type = same_type t e.wal_type in
      elim (Bool-cases (is_type t e.wal_type)) [
        | inr other ↦ rw (asked ∙ other, run) (rw other (run-of_type t handler es s))
        | inl same ↦ elim (Option-cases (handler s e)) [
          | inl failed ↦ rw (asked ∙ same, run) (rw same (rw (failed, run) refl))
          | inr (s', next) ↦
              rw (asked ∙ same, run) (rw same (rw (next, run) (run-of_type t handler es s')))
        ]
      ]

  -- For a log that holds exactly the given entries, each at its LSN from the first index to the last,
  -- `ReplayEventsByType` runs the handler over the entries of the type, in order, up to its first error.
  pub replay_events_by_type_lem :
      (t : WalType) (handler : S → Entry → Option S) (w : Wal Log) (es : List Entry) (s : S)
      → Numbered (first_index w.log) es
      → All (Stored disk w.log) es
      → length es ≡ last_index w.log + 1 - first_index w.log
      → replay_events_by_type t handler w s ≡ run handler (of_type t es) s
  unfolding replay_events_by_type replay_events
  replay_events_by_type_lem t handler w es s h k size =
      let chosen : S → Entry → Option S =
        λ s' entry. if is_of_type t entry then handler s' entry else some s' in
      ap (λ u. replay_entries chosen w.log u (first_index w.log) s) (sym size)
      ∙ replay_entries_lem chosen w.log es (first_index w.log) s h k
      ∙ run-of_type t handler es s

  -- On an empty log, whose first and last index are 0 and which holds nothing at 0, `ReplayEvents`
  -- returns an error.
  pub replay_events-empty :
      (handler : S → Entry → Option S) (w : Wal Log) (s : S)
      → first_index w.log ≡ 0
      → last_index w.log ≡ 0
      → read w.log 0 ≡ none
      → replay_events handler w s ≡ none
  unfolding replay_events replay_entries read_entry
  replay_events-empty handler w s first last empty =
      ap₂ (λ m n. replay_entries handler w.log (n + 1 - m) m s) first last
      ∙ rw (empty, replay_entries) refl
