-- ===== src/Wal/Events/RoundTrip.antt =====
-- An event that is written and read again.
use jmdn_fast_sync.Common.{
  ◌≡◌, refl, ◌∙◌, ap, sym, ◌⊎◌, true, Option, none, some, [], length, ◌==◌, if◌then◌else◌,
  Option-cases, Bool-cases, inl, inr,
}
use jmdn_fast_sync.Wal.Types.{
  WalType, header_sync, merkle_sync, prior_sync, data_sync, account_sync, reconciliation, pots,
}
use jmdn_fast_sync.Wal.Events.{
  Bytes, Encoding, BaseEvent, MessageEvent, Envelope, Messages, AnyEvent, header_sync_event,
  merkle_sync_event, prior_sync_event, data_sync_event, account_sync_event,
  reconciliation_batch_event, pots_block_event, get_type, event_factory, serialize, deserialize,
  serialize_message, deserialize_message, no_message, typed, envelope, batch_serialize,
  block_serialize, header_sync_serialize, merkle_sync_serialize, prior_sync_serialize,
  data_sync_serialize, account_sync_serialize,
}

-- An event as it is expected back: with its type, and with its message, if it has one whose encoding has
-- some bytes.
abbrev pub expected : {M : Type 0} → WalType → BaseEvent → Option M → Bytes → MessageEvent M
expected t base message bytes = record {
  base = typed t base;
  message = if length bytes == 0 then none else message;
  proto_data = bytes;
}

-- The same, when the encoding of the message may fail.
abbrev pub encoded_back : {M : Type 0} → WalType → BaseEvent → M → Option Bytes → MessageEvent M
encoded_back t base m none = expected t base none []
encoded_back t base m (some bytes) = expected t base (some m) bytes

abbrev pub brought_back :
    {M : Type 0} → Encoding M → WalType → BaseEvent → Option M → MessageEvent M
brought_back proto t base none = expected t base none []
brought_back proto t base (some m) = encoded_back t base m (proto.marshal m)

abbrev pub restored : {M : Type 0} → Encoding M → WalType → MessageEvent M → MessageEvent M
restored proto t e = brought_back proto t e.base e.message

abbrev kept : {M : Type 0} → MessageEvent M → MessageEvent M
kept e = if length e.proto_data == 0 then record e { message = none } else e

kept-expected :
    {M : Type 0} (t : WalType) (base : BaseEvent) (m : M) (bytes : Bytes)
    → kept (record { base = typed t base; message = some m; proto_data = bytes })
      ≡ expected t base (some m) bytes
kept-expected t base m bytes = elim (Bool-cases (length bytes == 0)) [
  | inl empty ↦ rw empty refl
  | inr filled ↦ rw filled refl
]

kept-fresh :
    {M : Type 0} (base : BaseEvent) (message : Option M) (bytes : Bytes)
    → bytes ≡ []
    → kept (record { base = base; message = message; proto_data = bytes })
      ≡ record { base = base; message = none; proto_data = [] }
kept-fresh base message bytes fresh = rw fresh refl

module _ {M : Type 0} (json : Encoding Envelope) (proto : Encoding M) where
  read_back :
      (e : MessageEvent M) (bytes : Bytes)
      → json.marshal (envelope e) ≡ some bytes
      → ((length e.proto_data == 0) ≡ true)
        ⊎ ((m : M) × (e.message ≡ some m) × (proto.unmarshal e.proto_data ≡ some m))
      → deserialize_message json proto no_message bytes ≡ some (kept e)
  unfolding deserialize_message
  read_back e bytes h k =
      rw (json.unmarshal-marshal (envelope e) bytes h, deserialize_message)
        (elim (Bool-cases (length e.proto_data == 0)) [
          | inl empty ↦ rw empty refl
          | inr filled ↦ elim k [
            | inl empty ↦ cc
            | inr (m, present, decoded) ↦ rw filled (rw decoded (rw (← present) refl))
          ]
        ])

  pub serialize_message-restored :
      (t : WalType) (e e' : MessageEvent M) (bytes : Bytes)
      → e.proto_data ≡ []
      → serialize_message json proto t e ≡ (e', some bytes)
      → deserialize_message json proto no_message bytes ≡ some (restored proto t e)
  unfolding serialize_message
  serialize_message-restored t e e' bytes fresh h = elim (Option-cases e.message) [
    | inl absent ↦
        let k = rw (absent, serialize_message) at h in
        read_back (record e { base = typed t e.base }) bytes (ap (λ r. r.1) k) (inl (rw fresh refl))
        ∙ ap some (kept-fresh (typed t e.base) e.message e.proto_data fresh)
        ∙ ap (λ (o : Option M). some (brought_back proto t e.base o)) (sym absent)
    | inr (m, present) ↦ elim (Option-cases (proto.marshal m)) [
      | inl failed ↦
          let k = rw failed at (rw (present, serialize_message) at h) in
          let stop : none ≡ some bytes = ap (λ r. r.1) k in cc
      | inr (b, encoded) ↦
          let k = rw encoded at (rw (present, serialize_message) at h) in
          read_back (record { base = typed t e.base; message = some m; proto_data = b }) bytes
            (ap (λ r. r.1) k) (inr (m, refl, proto.unmarshal-marshal m b encoded))
          ∙ ap some (kept-expected t e.base m b)
          ∙ ap (λ o. some (encoded_back t e.base m o)) (sym encoded)
          ∙ ap (λ o. some (brought_back proto t e.base o)) (sym present)
    ]
  ]

module _ (messages : Messages) where
  open messages use {headers, merkle, prior, non_headers, accounts, envelopes, batches, blocks}

  -- An event that has not been written before.
  abbrev pub IsFresh : AnyEvent messages → Type 0
  IsFresh (header_sync_event e) = e.proto_data ≡ []
  IsFresh (merkle_sync_event e) = e.proto_data ≡ []
  IsFresh (prior_sync_event e) = e.proto_data ≡ []
  IsFresh (data_sync_event e) = e.proto_data ≡ []
  IsFresh (account_sync_event e) = e.proto_data ≡ []
  IsFresh (reconciliation_batch_event e) = Unit
  IsFresh (pots_block_event e) = Unit

  -- The event that is expected back.
  abbrev pub restored_event : AnyEvent messages → AnyEvent messages
  restored_event (header_sync_event e) = header_sync_event (restored headers header_sync e)
  restored_event (merkle_sync_event e) = merkle_sync_event (restored merkle merkle_sync e)
  restored_event (prior_sync_event e) = prior_sync_event (restored prior prior_sync e)
  restored_event (data_sync_event e) = data_sync_event (restored non_headers data_sync e)
  restored_event (account_sync_event e) = account_sync_event (restored accounts account_sync e)
  restored_event (reconciliation_batch_event e) =
      reconciliation_batch_event (record e { base = typed reconciliation e.base })
  restored_event (pots_block_event e) = pots_block_event (record e { base = typed pots e.base })

  -- The result of a Serialize inside its constructor.
  unwrapped :
      {A : Type 0} (wrap : A → AnyEvent messages) (r : A × Option Bytes) (e' : AnyEvent messages)
      (bytes : Bytes)
      → ◌≡◌ {A = AnyEvent messages × Option Bytes} (wrap r.0, r.1) (e', some bytes)
      → (e' ≡ wrap r.0) × (r ≡ (r.0, some bytes))
  unwrapped wrap r e' bytes h = (sym (ap (λ x. x.0) h), ap (λ o. (r.0, o)) (ap (λ x. x.1) h))

  -- When Serialize of an event that has not been written before returns bytes, EventFactory of the event's
  -- type followed by Deserialize of these bytes gives the event with its type set, with the message it
  -- had and the encoding of this message; a message whose encoding has no bytes is lost.
  pub deserialize-serialize :
      (e e' : AnyEvent messages) (bytes : Bytes)
      → IsFresh e
      → serialize messages e ≡ (e', some bytes)
      → deserialize messages (event_factory messages (get_type messages e)) bytes
        ≡ some (restored_event e)
  unfolding serialize deserialize event_factory
  deserialize-serialize (header_sync_event e) e' bytes fresh h =
      rw
        (serialize_message-restored envelopes headers header_sync e
          (header_sync_serialize messages e).0 bytes fresh
          (unwrapped header_sync_event (header_sync_serialize messages e) e' bytes h).1)
        refl
  deserialize-serialize (merkle_sync_event e) e' bytes fresh h =
      rw
        (serialize_message-restored envelopes merkle merkle_sync e
          (merkle_sync_serialize messages e).0 bytes fresh
          (unwrapped merkle_sync_event (merkle_sync_serialize messages e) e' bytes h).1)
        refl
  deserialize-serialize (prior_sync_event e) e' bytes fresh h =
      rw
        (serialize_message-restored envelopes prior prior_sync e (prior_sync_serialize messages e).0
          bytes fresh (unwrapped prior_sync_event (prior_sync_serialize messages e) e' bytes h).1)
        refl
  deserialize-serialize (data_sync_event e) e' bytes fresh h =
      rw
        (serialize_message-restored envelopes non_headers data_sync e
          (data_sync_serialize messages e).0 bytes fresh
          (unwrapped data_sync_event (data_sync_serialize messages e) e' bytes h).1)
        refl
  deserialize-serialize (account_sync_event e) e' bytes fresh h =
      rw
        (serialize_message-restored envelopes accounts account_sync e
          (account_sync_serialize messages e).0 bytes fresh
          (unwrapped account_sync_event (account_sync_serialize messages e) e' bytes h).1)
        refl
  deserialize-serialize (reconciliation_batch_event e) e' bytes fresh h =
      let (same, k) =
        unwrapped reconciliation_batch_event (batch_serialize messages e) e' bytes h in
      rw (batches.unmarshal-marshal (batch_serialize messages e).0 bytes (ap (λ x. x.1) k)) refl
  deserialize-serialize (pots_block_event e) e' bytes fresh h =
      let (same, k) = unwrapped pots_block_event (block_serialize messages e) e' bytes h in
      rw (blocks.unmarshal-marshal (block_serialize messages e).0 bytes (ap (λ x. x.1) k)) refl
