-- ===== src/Wal/Events.antt =====
-- The events of common/WAL/adapter.go: Serialize, Deserialize and EventFactory. The encodings of the
-- protocol messages and JSON are parameters. A []byte that is nil and one that is empty are the same.
pub mod RoundTrip
use Prim.Native.String.{String}
use jmdn_fast_sync.Common.{
  ℕ, ◌≡◌, Bool, Option, none, some, List, [], ◌∷◌, length, ◌==◌, if◌then◌else◌,
}
use jmdn_fast_sync.Wal.Types.{
  WalType, header_sync, merkle_sync, prior_sync, data_sync, reconciliation, pots, account_sync,
  type_text,
}

abbrev pub Bytes : Type 0
Bytes = List ℕ

-- An encoding; `none` is an error.
pub record Encoding (A : Type 0) : Type 0 where
  pub marshal : A → Option Bytes
  pub unmarshal : Bytes → Option A
  pub unmarshal-marshal : (a : A) (b : Bytes) → marshal a ≡ some b → unmarshal b ≡ some a

pub record BaseEvent : Type 0 where
  pub event_type : String
  pub lsn : ℕ
  pub operation : String

-- The events that hold a message of the protocol, which is not a part of their JSON.
pub record MessageEvent (M : Type 0) : Type 0 where
  pub base : BaseEvent
  pub message : Option M
  pub proto_data : Bytes

-- The part of such an event that JSON encodes.
pub record Envelope : Type 0 where
  pub base : BaseEvent
  pub proto_data : Bytes

pub record ReconciliationBatchEntry : Type 0 where
  pub account_address : String
  pub new_balance : String
  pub nonce : ℕ

pub record ReconciliationBatchEvent : Type 0 where
  pub base : BaseEvent
  pub accounts : List ReconciliationBatchEntry
  pub timestamp : ℕ

pub record PotsBlockEvent : Type 0 where
  pub base : BaseEvent
  pub block_number : ℕ
  pub block_data : Bytes
  pub timestamp : ℕ

abbrev pub typed : WalType → BaseEvent → BaseEvent
typed t base = record base { event_type = type_text t }

abbrev pub envelope : {M : Type 0} → MessageEvent M → Envelope
envelope e = record { base = e.base; proto_data = e.proto_data }

-- The code that the six events with a message share, with the type that each of them writes. The event
-- is changed: its type and the encoded message are set.
module _ {M : Type 0} (json : Encoding Envelope) (proto : Encoding M) where
  unfoldable pub serialize_message : WalType → MessageEvent M → MessageEvent M × Option Bytes
  serialize_message t e =
      let e' : MessageEvent M = record e { base = typed t e.base } in
      elim e.message [
        | none ↦ (e', json.marshal (envelope e'))
        | some m ↦ elim (proto.marshal m) [
          | none ↦ (e', none)
          | some bytes ↦
              let e'' : MessageEvent M = record e' { proto_data = bytes } in
              (e'', json.marshal (envelope e''))
        ]
      ]

  unfoldable pub deserialize_message : MessageEvent M → Bytes → Option (MessageEvent M)
  deserialize_message e input = elim (json.unmarshal input) [
    | none ↦ none
    | some read ↦
        let e' : MessageEvent M = record e { base = read.base; proto_data = read.proto_data } in
        if length read.proto_data == 0 then some e' else elim (proto.unmarshal read.proto_data) [
          | none ↦ none
          | some m ↦ some (record e' { message = some m })
        ]
  ]

-- The messages of the events, with their encodings.
pub record Messages : Type 1 where
  pub Headers : Type 0
  pub Merkle : Type 0
  pub Prior : Type 0
  pub NonHeaders : Type 0
  pub Accounts : Type 0
  pub headers : Encoding Headers
  pub merkle : Encoding Merkle
  pub prior : Encoding Prior
  pub non_headers : Encoding NonHeaders
  pub accounts : Encoding Accounts
  pub envelopes : Encoding Envelope
  pub batches : Encoding ReconciliationBatchEvent
  pub blocks : Encoding PotsBlockEvent

abbrev pub no_base : BaseEvent
no_base = record { event_type = ""; lsn = 0; operation = "" }

abbrev pub no_message : {M : Type 0} → MessageEvent M
no_message = record { base = no_base; message = none; proto_data = [] }

module _ (messages : Messages) where
  open messages use {
    Headers, Merkle, Prior, NonHeaders, Accounts, headers, merkle, prior, non_headers, accounts,
    envelopes, batches, blocks,
  }

  -- What `EventFactory` can return.
  pub data AnyEvent : Type 0 where
    header_sync_event : MessageEvent Headers → AnyEvent
    merkle_sync_event : MessageEvent Merkle → AnyEvent
    prior_sync_event : MessageEvent Prior → AnyEvent
    data_sync_event : MessageEvent NonHeaders → AnyEvent
    account_sync_event : MessageEvent Accounts → AnyEvent
    reconciliation_batch_event : ReconciliationBatchEvent → AnyEvent
    pots_block_event : PotsBlockEvent → AnyEvent

  -- `GetType`
  abbrev pub get_type : AnyEvent → WalType
  get_type (header_sync_event e) = header_sync
  get_type (merkle_sync_event e) = merkle_sync
  get_type (prior_sync_event e) = prior_sync
  get_type (data_sync_event e) = data_sync
  get_type (account_sync_event e) = account_sync
  get_type (reconciliation_batch_event e) = reconciliation
  get_type (pots_block_event e) = pots

  -- `EventFactory`, for the types that there are.
  unfoldable pub event_factory : WalType → AnyEvent
  event_factory header_sync = header_sync_event no_message
  event_factory merkle_sync = merkle_sync_event no_message
  event_factory prior_sync = prior_sync_event no_message
  event_factory data_sync = data_sync_event no_message
  event_factory reconciliation =
      reconciliation_batch_event (record { base = no_base; accounts = []; timestamp = 0 })
  event_factory pots =
      pots_block_event (record { base = no_base; block_number = 0; block_data = []; timestamp = 0 })
  event_factory account_sync = account_sync_event no_message

  abbrev pub header_sync_serialize : MessageEvent Headers → MessageEvent Headers × Option Bytes
  header_sync_serialize e = serialize_message envelopes headers header_sync e

  abbrev pub header_sync_deserialize : MessageEvent Headers → Bytes → Option (MessageEvent Headers)
  header_sync_deserialize e input = deserialize_message envelopes headers e input

  abbrev pub merkle_sync_serialize : MessageEvent Merkle → MessageEvent Merkle × Option Bytes
  merkle_sync_serialize e = serialize_message envelopes merkle merkle_sync e

  abbrev pub merkle_sync_deserialize : MessageEvent Merkle → Bytes → Option (MessageEvent Merkle)
  merkle_sync_deserialize e input = deserialize_message envelopes merkle e input

  abbrev pub prior_sync_serialize : MessageEvent Prior → MessageEvent Prior × Option Bytes
  prior_sync_serialize e = serialize_message envelopes prior prior_sync e

  abbrev pub prior_sync_deserialize : MessageEvent Prior → Bytes → Option (MessageEvent Prior)
  prior_sync_deserialize e input = deserialize_message envelopes prior e input

  abbrev pub data_sync_serialize : MessageEvent NonHeaders → MessageEvent NonHeaders × Option Bytes
  data_sync_serialize e = serialize_message envelopes non_headers data_sync e

  abbrev pub data_sync_deserialize :
      MessageEvent NonHeaders → Bytes → Option (MessageEvent NonHeaders)
  data_sync_deserialize e input = deserialize_message envelopes non_headers e input

  abbrev pub account_sync_serialize : MessageEvent Accounts → MessageEvent Accounts × Option Bytes
  account_sync_serialize e = serialize_message envelopes accounts account_sync e

  abbrev pub account_sync_deserialize :
      MessageEvent Accounts → Bytes → Option (MessageEvent Accounts)
  account_sync_deserialize e input = deserialize_message envelopes accounts e input

  abbrev pub batch_serialize : ReconciliationBatchEvent → ReconciliationBatchEvent × Option Bytes
  batch_serialize e =
      let e' : ReconciliationBatchEvent = record e { base = typed reconciliation e.base } in
      (e', batches.marshal e')

  abbrev pub block_serialize : PotsBlockEvent → PotsBlockEvent × Option Bytes
  block_serialize e =
      let e' : PotsBlockEvent = record e { base = typed pots e.base } in (e', blocks.marshal e')

  -- `Serialize` of an `EventAdapter`.
  unfoldable pub serialize : AnyEvent → AnyEvent × Option Bytes
  unfolding serialize_message
  serialize (header_sync_event e) =
      let (e', bytes) = header_sync_serialize e in (header_sync_event e', bytes)
  serialize (merkle_sync_event e) =
      let (e', bytes) = merkle_sync_serialize e in (merkle_sync_event e', bytes)
  serialize (prior_sync_event e) =
      let (e', bytes) = prior_sync_serialize e in (prior_sync_event e', bytes)
  serialize (data_sync_event e) =
      let (e', bytes) = data_sync_serialize e in (data_sync_event e', bytes)
  serialize (account_sync_event e) =
      let (e', bytes) = account_sync_serialize e in (account_sync_event e', bytes)
  serialize (reconciliation_batch_event e) =
      let (e', bytes) = batch_serialize e in (reconciliation_batch_event e', bytes)
  serialize (pots_block_event e) =
      let (e', bytes) = block_serialize e in (pots_block_event e', bytes)

  abbrev mapped : {A : Type 0} → (A → AnyEvent) → Option A → Option AnyEvent
  mapped wrap none = none
  mapped wrap (some a) = some (wrap a)

  -- `Deserialize` of an `EventAdapter`. JSON overwrites every field of the two events without a message.
  unfoldable pub deserialize : AnyEvent → Bytes → Option AnyEvent
  unfolding deserialize_message
  deserialize (header_sync_event e) input =
      mapped header_sync_event (header_sync_deserialize e input)
  deserialize (merkle_sync_event e) input =
      mapped merkle_sync_event (merkle_sync_deserialize e input)
  deserialize (prior_sync_event e) input = mapped prior_sync_event (prior_sync_deserialize e input)
  deserialize (data_sync_event e) input = mapped data_sync_event (data_sync_deserialize e input)
  deserialize (account_sync_event e) input =
      mapped account_sync_event (account_sync_deserialize e input)
  deserialize (reconciliation_batch_event e) input =
      mapped reconciliation_batch_event (batches.unmarshal input)
  deserialize (pots_block_event e) input = mapped pots_block_event (blocks.unmarshal input)
