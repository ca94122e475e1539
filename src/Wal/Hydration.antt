-- ===== src/Wal/Hydration.antt =====
-- common/WAL/hydration/hydration.go: the last event of each phase, read from the log.
pub mod Agree
use jmdn_fast_sync.Common.{
  ℕ, zero, suc, ◌+◌, ◌-◌, ◌≡◌, refl, Bool, true, false, Option, none, some, List, if◌then◌else◌,
}
use jmdn_fast_sync.Wal.Events.{
  Messages, MessageEvent, ReconciliationBatchEvent, no_message, header_sync_deserialize,
  prior_sync_deserialize, data_sync_deserialize,
}
use jmdn_fast_sync.Wal.Log.{Disk}
use jmdn_fast_sync.Wal.Operations.{Wal, read_entry}
use jmdn_fast_sync.Wal.Replay.{replay_entries, replay_events, replay_events_by_type, is_of_type}
use jmdn_fast_sync.Wal.Types.{
  Entry, WalType, header_sync, merkle_sync, prior_sync, data_sync, reconciliation, pots,
  account_sync,
}

-- `hydrateLastEntry`, with the Deserialize of its event.
abbrev pub keep_last : {E : Type 0} → (List ℕ → Option E) → Option E → Entry → Option (Option E)
keep_last decode last entry = elim (decode entry.payload) [ none ↦ none | some e ↦ some (some e) ]

module _ (disk : Disk) where
  open disk use {Log}

  unfoldable pub hydrate_last_entry :
      {E : Type 0} → WalType → (List ℕ → Option E) → Wal Log → Option (Option E)
  unfolding replay_events_by_type
  hydrate_last_entry t decode w = replay_events_by_type disk t (keep_last decode) w none

module _ (messages : Messages) (disk : Disk) where
  open messages use {Headers, Prior, NonHeaders, batches}
  open disk use {Log, first_index, last_index}

  pub record PhaseState : Type 0 where
    pub prior_sync : Option (MessageEvent Prior)
    pub header_sync : Option (MessageEvent Headers)
    pub data_sync : Option (MessageEvent NonHeaders)
    pub reconciliation : Option ReconciliationBatchEvent

  -- The handler of HydrateAll, for an entry of the given type.
  unfoldable pub hydrate_entry : WalType → PhaseState → List ℕ → Option PhaseState
  hydrate_entry prior_sync st payload = elim (prior_sync_deserialize messages no_message payload) [
    | none ↦ none
    | some e ↦ some (record st { prior_sync = some e })
  ]
  hydrate_entry header_sync st payload =
      elim (header_sync_deserialize messages no_message payload) [
        | none ↦ none
        | some e ↦ some (record st { header_sync = some e })
      ]
  hydrate_entry data_sync st payload = elim (data_sync_deserialize messages no_message payload) [
    | none ↦ none
    | some e ↦ some (record st { data_sync = some e })
  ]
  hydrate_entry reconciliation st payload = elim (batches.unmarshal payload) [
    | none ↦ none
    | some e ↦ some (record st { reconciliation = some e })
  ]
  hydrate_entry merkle_sync st payload = some st
  hydrate_entry pots st payload = some st
  hydrate_entry account_sync st payload = some st

  abbrev pub no_phase : PhaseState
  no_phase = record {
    prior_sync = none;
    header_sync = none;
    data_sync = none;
    reconciliation = none;
  }

  abbrev pub phase_handler : PhaseState → Entry → Option PhaseState
  phase_handler st entry = hydrate_entry entry.wal_type st entry.payload

  -- `HydrateAll`
  unfoldable pub hydrate_all : Wal Log → Option PhaseState
  unfolding hydrate_entry replay_events
  hydrate_all w = replay_events disk phase_handler w no_phase

  unfoldable pub hydrate_prior_sync : Wal Log → Option (Option (MessageEvent Prior))
  unfolding hydrate_last_entry
  hydrate_prior_sync w =
      hydrate_last_entry disk prior_sync (prior_sync_deserialize messages no_message) w

  unfoldable pub hydrate_header_sync : Wal Log → Option (Option (MessageEvent Headers))
  unfolding hydrate_last_entry
  hydrate_header_sync w =
      hydrate_last_entry disk header_sync (header_sync_deserialize messages no_message) w

  unfoldable pub hydrate_data_sync : Wal Log → Option (Option (MessageEvent NonHeaders))
  unfolding hydrate_last_entry
  hydrate_data_sync w =
      hydrate_last_entry disk data_sync (data_sync_deserialize messages no_message) w

  unfoldable pub hydrate_reconciliation : Wal Log → Option (Option ReconciliationBatchEvent)
  unfolding hydrate_last_entry
  hydrate_reconciliation w = hydrate_last_entry disk reconciliation batches.unmarshal w
