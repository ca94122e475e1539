-- ===== src/Tests/EventRuns.antt =====
-- Writing and reading an event, and reading the last event of each phase.
use text.Mathlib.Text.{◌==◌ as str_eq}
use text.Mathlib.TextEquality.{eq_iff}
use jmdn_fast_sync.Common.{
  ℕ, ◌≡◌, refl, ap, ap₂, sym, Bool, true, ◌&&◌, Option, none, some, [], ◌∷◌, ◌==◌, if◌then◌else◌,
  Bool-cases, inl, inr, arith,
}
use jmdn_fast_sync.Tests.Memory.{Memory, memory_disk}
use jmdn_fast_sync.Wal.Events.{
  Bytes, Encoding, BaseEvent, MessageEvent, Envelope, Messages, AnyEvent, header_sync_event,
  get_type, event_factory, serialize, deserialize, serialize_message, deserialize_message,
}
use jmdn_fast_sync.Wal.Events.RoundTrip.{deserialize-serialize}
use jmdn_fast_sync.Wal.Hydration.{
  PhaseState, hydrate_entry, hydrate_all, hydrate_prior_sync, hydrate_header_sync,
  hydrate_data_sync, hydrate_reconciliation,
}
use jmdn_fast_sync.Wal.Hydration.Agree.{phases, hydrate_all-phases}
use jmdn_fast_sync.Wal.Operations.{Wal, read_entry}
use jmdn_fast_sync.Wal.Replay.{replay_events, replay_entries}
use jmdn_fast_sync.Wal.Types.{Entry, header_sync}

abbrev number : Bytes → Option ℕ
number (n ∷ []) = some n
number bytes = none

number-marshal : (n : ℕ) (b : Bytes) → some (n ∷ []) ≡ some b → number b ≡ some n
number-marshal n b h = let k : n ∷ [] ≡ b = cc in rw (sym k) refl

abbrev numbers : Encoding ℕ
numbers = record {
  marshal = λ n. some (n ∷ []);
  unmarshal = number;
  unmarshal-marshal = number-marshal;
}

none-marshal : {A : Type 0} (a : A) (b : Bytes) → none ≡ some b → none ≡ some a
none-marshal a b h = cc

-- An encoding that always fails.
abbrev nothing : {A : Type 0} → Encoding A
nothing = record { marshal = λ a. none; unmarshal = λ b. none; unmarshal-marshal = none-marshal }

abbrev is_write : Envelope → Bool
is_write e = str_eq e.base.event_type "wal:headersync" && str_eq e.base.operation "write"

abbrev write_base : ℕ → BaseEvent
write_base lsn = record { event_type = "wal:headersync"; lsn = lsn; operation = "write" }

abbrev put_envelope : Envelope → Option Bytes
put_envelope e = if is_write e then some (e.base.lsn ∷ e.proto_data) else none

abbrev get_envelope : Bytes → Option Envelope
get_envelope [] = none
get_envelope (lsn ∷ bytes) = some (record { base = write_base lsn; proto_data = bytes })

is_write-base : (e : Envelope) → is_write e ≡ true → write_base e.base.lsn ≡ e.base
is_write-base e h =
    let same : str_eq e.base.event_type "wal:headersync" ≡ true = ground arith in
    let op : str_eq e.base.operation "write" ≡ true = ground arith in
    ap₂ (λ t o. record { event_type = t; lsn = e.base.lsn; operation = o })
      (sym ((eq_iff e.base.event_type "wal:headersync").0 same))
      (sym ((eq_iff e.base.operation "write").0 op))

get-put : (e : Envelope) (b : Bytes) → put_envelope e ≡ some b → get_envelope b ≡ some e
get-put e b h = elim (Bool-cases (is_write e)) [
  | inr other ↦ cc (rw other at h)
  | inl write ↦
      let k : some (e.base.lsn ∷ e.proto_data) ≡ some b = rw write at h in
      let same : e.base.lsn ∷ e.proto_data ≡ b = cc in
      rw (sym same) (
        ap (λ base. some (record { base = base; proto_data = e.proto_data }))
          (is_write-base e write))
]

abbrev numbered : Messages
numbered = record {
  Headers = ℕ;
  Merkle = ℕ;
  Prior = ℕ;
  NonHeaders = ℕ;
  Accounts = ℕ;
  headers = numbers;
  merkle = numbers;
  prior = numbers;
  non_headers = numbers;
  accounts = numbers;
  envelopes = record {
    marshal = put_envelope;
    unmarshal = get_envelope;
    unmarshal-marshal = get-put;
  };
  batches = nothing;
  blocks = nothing;
}

abbrev fresh : AnyEvent numbered
fresh = header_sync_event (record {
  base = record { event_type = ""; lsn = 6; operation = "write" };
  message = some 5;
  proto_data = [];
})

abbrev stored : MessageEvent ℕ
stored = record { base = write_base 6; message = some 5; proto_data = 5 ∷ [] }

deserialize-serialize_example :
    deserialize numbered (event_factory numbered (get_type numbered fresh)) (6 ∷ 5 ∷ [])
    ≡ some (header_sync_event stored)
unfolding serialize serialize_message
deserialize-serialize_example =
    deserialize-serialize numbered fresh (header_sync_event stored) (6 ∷ 5 ∷ []) refl refl

abbrev header_entry : Entry
header_entry = record { wal_type = header_sync; payload = 6 ∷ 5 ∷ []; lsn = 1; timestamp = 100 }

abbrev header_log : Wal Memory
header_log = record {
  log = record {
    capacity = 9;
    first = 1;
    last = 1;
    at = λ j. if j == 1 then some (memory_disk.codec.marshal header_entry) else none;
  };
  buffer = [];
  batch_size = 3;
  current_lsn = 1;
  last_flushed_lsn = 1;
  metadata = none;
  checkpoints = [];
}

hydrate_all-phases_example :
    hydrate_all numbered memory_disk header_log
    ≡ phases numbered memory_disk
        (hydrate_prior_sync numbered memory_disk header_log)
        (hydrate_header_sync numbered memory_disk header_log)
        (hydrate_data_sync numbered memory_disk header_log)
        (hydrate_reconciliation numbered memory_disk header_log)
hydrate_all-phases_example = hydrate_all-phases numbered memory_disk header_log

abbrev header_of : Option (PhaseState numbered memory_disk) → Option (Option (MessageEvent ℕ))
header_of none = none
header_of (some state) = some state.header_sync

hydrate_all_run : header_of (hydrate_all numbered memory_disk header_log) ≡ some (some stored)
unfolding hydrate_all hydrate_entry replay_events replay_entries read_entry deserialize_message
hydrate_all_run = refl
