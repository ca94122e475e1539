-- ===== src/Wal/Hydration/Agree.antt =====
-- common/WAL/hydration/hydration.go: the single pass of HydrateAll and the scan of each phase.
use jmdn_fast_sync.Common.{
  ℕ, zero, suc, ◌+◌, ◌-◌, ◌≡◌, refl, sym, Option, none, some, List, Option-cases, inl, inr,
  if◌then◌else◌,
}
use jmdn_fast_sync.Wal.Events.{
  Messages, MessageEvent, ReconciliationBatchEvent, no_message, header_sync_deserialize,
  prior_sync_deserialize, data_sync_deserialize,
}
use jmdn_fast_sync.Wal.Hydration.{
  PhaseState, hydrate_entry, no_phase, phase_handler, hydrate_all, keep_last, hydrate_last_entry,
  hydrate_prior_sync, hydrate_header_sync, hydrate_data_sync, hydrate_reconciliation,
}
use jmdn_fast_sync.Wal.Log.{Disk}
use jmdn_fast_sync.Wal.Operations.{Wal, read_entry}
use jmdn_fast_sync.Wal.Replay.{replay_entries, replay_events, replay_events_by_type, is_of_type}
use jmdn_fast_sync.Wal.Types.{
  Entry, WalType, header_sync, merkle_sync, prior_sync, data_sync, reconciliation, pots,
  account_sync,
}

-- The handler of a replay by type.
abbrev scan : {T : Type 0} → WalType → (List ℕ → Option T) → Option T → Entry → Option (Option T)
scan t decode last entry = if is_of_type t entry then keep_last decode last entry else some last

abbrev after : {A B : Type 0} → Option A → (A → Option B) → Option B
after o k = elim o [ none ↦ none | some a ↦ k a ]

-- A step of the pass that sets one field, and the step of the field's scan.
follow :
    {E S : Type 0} (o : Option E) (rest : S → Option S) (set : E → S)
    (rest_of_scan : Option E → Option (Option E)) (join : Option (Option E) → Option S)
    → join none ≡ none
    → ((e : E) → rest (set e) ≡ join (rest_of_scan (some e)))
    → after (after o (λ e. some (set e))) rest
      ≡ join (after (after o (λ e. some (some e))) rest_of_scan)
follow none rest set rest_of_scan join stop next = sym stop
follow (some e) rest set rest_of_scan join stop next = next e

module _ (messages : Messages) (disk : Disk) where
  open messages use {Headers, Prior, NonHeaders, batches}
  open disk use {Log, first_index, last_index}

  abbrev State : Type 0
  State = PhaseState messages disk

  -- The state of four scans, all of which have succeeded.
  unfoldable pub phases :
      Option (Option (MessageEvent Prior))
      → Option (Option (MessageEvent Headers))
      → Option (Option (MessageEvent NonHeaders))
      → Option (Option ReconciliationBatchEvent)
      → Option (PhaseState messages disk)
  phases (some p) (some h) (some d) (some r) =
      some (record { prior_sync = p; header_sync = h; data_sync = d; reconciliation = r })
  phases none h d r = none
  phases (some p) none d r = none
  phases (some p) (some h) none r = none
  phases (some p) (some h) (some d) none = none

  no_header :
      (p : Option (Option (MessageEvent Prior))) (d : Option (Option (MessageEvent NonHeaders)))
      (r : Option (Option ReconciliationBatchEvent))
      → phases p none d r ≡ none
  unfolding phases
  no_header none d r = refl
  no_header (some p) d r = refl

  no_data :
      (p : Option (Option (MessageEvent Prior))) (h : Option (Option (MessageEvent Headers)))
      (r : Option (Option ReconciliationBatchEvent))
      → phases p h none r ≡ none
  unfolding phases
  no_data none h r = refl
  no_data (some p) none r = refl
  no_data (some p) (some h) r = refl

  no_batch :
      (p : Option (Option (MessageEvent Prior))) (h : Option (Option (MessageEvent Headers)))
      (d : Option (Option (MessageEvent NonHeaders)))
      → phases p h d none ≡ none
  unfolding phases
  no_batch none h d = refl
  no_batch (some p) none d = refl
  no_batch (some p) (some h) none = refl
  no_batch (some p) (some h) (some d) = refl

  -- One entry: what the rest of the pass makes of the handler's state is what the rests of the scans make.
  entry-agrees :
      (t : WalType) (payload : List ℕ) (lsn timestamp : ℕ) (rest : State → Option State)
      (rest_p : Option (MessageEvent Prior) → Option (Option (MessageEvent Prior)))
      (rest_h : Option (MessageEvent Headers) → Option (Option (MessageEvent Headers)))
      (rest_d : Option (MessageEvent NonHeaders) → Option (Option (MessageEvent NonHeaders)))
      (rest_r : Option ReconciliationBatchEvent → Option (Option ReconciliationBatchEvent))
      → ((s : State)
          → rest s
            ≡ phases
                (rest_p s.prior_sync)
                (rest_h s.header_sync)
                (rest_d s.data_sync)
                (rest_r s.reconciliation))
      → (s : State)
      → let e : Entry = record {
        wal_type = t;
        payload = payload;
        lsn = lsn;
        timestamp = timestamp;
      } in
        after (phase_handler messages disk s e) rest
        ≡ phases
            (after
              (scan prior_sync (prior_sync_deserialize messages no_message) s.prior_sync e)
              rest_p)
            (after
              (scan header_sync (header_sync_deserialize messages no_message) s.header_sync e)
              rest_h)
            (after
              (scan data_sync (data_sync_deserialize messages no_message) s.data_sync e)
              rest_d)
            (after (scan reconciliation batches.unmarshal s.reconciliation e) rest_r)
  unfolding hydrate_entry is_of_type phases
  entry-agrees prior_sync payload lsn timestamp rest rest_p rest_h rest_d rest_r ih s =
      follow (prior_sync_deserialize messages no_message payload) rest
        (λ e. record s { prior_sync = some e }) rest_p
        (λ x. phases x (rest_h s.header_sync) (rest_d s.data_sync) (rest_r s.reconciliation)) refl
        (λ e. ih (record s { prior_sync = some e }))
  entry-agrees header_sync payload lsn timestamp rest rest_p rest_h rest_d rest_r ih s =
      follow (header_sync_deserialize messages no_message payload) rest
        (λ e. record s { header_sync = some e }) rest_h
        (λ x. phases (rest_p s.prior_sync) x (rest_d s.data_sync) (rest_r s.reconciliation))
        (no_header (rest_p s.prior_sync) (rest_d s.data_sync) (rest_r s.reconciliation))
        (λ e. ih (record s { header_sync = some e }))
  entry-agrees data_sync payload lsn timestamp rest rest_p rest_h rest_d rest_r ih s =
      follow (data_sync_deserialize messages no_message payload) rest
        (λ e. record s { data_sync = some e }) rest_d
        (λ x. phases (rest_p s.prior_sync) (rest_h s.header_sync) x (rest_r s.reconciliation))
        (no_data (rest_p s.prior_sync) (rest_h s.header_sync) (rest_r s.reconciliation))
        (λ e. ih (record s { data_sync = some e }))
  entry-agrees reconciliation payload lsn timestamp rest rest_p rest_h rest_d rest_r ih s =
      follow (batches.unmarshal payload) rest (λ e. record s { reconciliation = some e }) rest_r
        (λ x. phases (rest_p s.prior_sync) (rest_h s.header_sync) (rest_d s.data_sync) x)
        (no_batch (rest_p s.prior_sync) (rest_h s.header_sync) (rest_d s.data_sync))
        (λ e. ih (record s { reconciliation = some e }))
  entry-agrees merkle_sync payload lsn timestamp rest rest_p rest_h rest_d rest_r ih s = ih s
  entry-agrees pots payload lsn timestamp rest rest_p rest_h rest_d rest_r ih s = ih s
  entry-agrees account_sync payload lsn timestamp rest rest_p rest_h rest_d rest_r ih s = ih s

  abbrev replay_scan :
      {T : Type 0} → WalType → (List ℕ → Option T) → Log → ℕ → ℕ → Option T → Option (Option T)
  replay_scan t decode log left index last = replay_entries disk (scan t decode) log left index last

  replay_entries-agrees :
      (log : Log) (left index : ℕ) (s : State)
      → replay_entries disk (phase_handler messages disk) log left index s
        ≡ phases
            (replay_scan prior_sync
              (prior_sync_deserialize messages no_message)
              log
              left
              index
              s.prior_sync)
            (replay_scan header_sync
              (header_sync_deserialize messages no_message)
              log
              left
              index
              s.header_sync)
            (replay_scan data_sync
              (data_sync_deserialize messages no_message)
              log
              left
              index
              s.data_sync)
            (replay_scan reconciliation batches.unmarshal log left index s.reconciliation)
  unfolding replay_entries phases
  replay_entries-agrees log zero index s = refl
  replay_entries-agrees log (suc left) index s = elim (Option-cases (read_entry disk log index)) [
    | inl failed ↦ rw (failed, replay_entries) refl
    | inr (e, at) ↦
        rw (at, replay_entries)
          (entry-agrees e.wal_type e.payload e.lsn e.timestamp
            (replay_entries disk (phase_handler messages disk) log left (index + 1))
            (replay_scan prior_sync (prior_sync_deserialize messages no_message) log left
              (index + 1))
            (replay_scan header_sync (header_sync_deserialize messages no_message) log left
              (index + 1))
            (replay_scan data_sync (data_sync_deserialize messages no_message) log left (index + 1))
            (replay_scan reconciliation batches.unmarshal log left (index + 1))
            (replay_entries-agrees log left (index + 1)) s)
  ]

  -- The single pass of HydrateAll and the four scans of HydratePriorSync, HydrateHeaderSync,
  -- HydrateDataSync and HydrateReconciliation agree: HydrateAll fails when one of the scans fails, and
  -- otherwise its state holds what each scan returns.
  pub hydrate_all-phases :
      (w : Wal Log)
      → hydrate_all messages disk w
        ≡ phases
            (hydrate_prior_sync messages disk w)
            (hydrate_header_sync messages disk w)
            (hydrate_data_sync messages disk w)
            (hydrate_reconciliation messages disk w)
  unfolding hydrate_all hydrate_prior_sync hydrate_header_sync hydrate_data_sync
      hydrate_reconciliation hydrate_last_entry replay_events_by_type replay_events
  hydrate_all-phases w =
      replay_entries-agrees w.log (last_index w.log + 1 - first_index w.log) (first_index w.log)
        (no_phase messages disk)
