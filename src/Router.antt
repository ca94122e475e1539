-- ===== src/Router.antt =====
-- The message router of a node that serves others (core/protocol/router/data_router.go and
-- auth_helper.go): its state, the messages with their optional parts, and the check of a request's
-- token. The token cache behind `BlockInfo.AUTH()` is a parameter.
pub mod Serve
pub mod Sync
pub mod Replies
pub mod Handlers
pub mod Accounts
pub mod Availability
pub mod Upload
use Prim.Native.String.{String}
use text.Mathlib.Text.{◌==◌ as str_eq}
use jmdn_fast_sync.Common.{ℕ, Bool, true, false, Option, none, some, List, if◌then◌else◌}
use jmdn_fast_sync.Common.Result.{Result, ok, fails, Answer, answered, panicked, ◌>>=◌}
use jmdn_fast_sync.Checksum.{PriorSync}
use jmdn_fast_sync.Pots.BlockMap.{Bytes}
use jmdn_fast_sync.Pots.Response.{Header}
use jmdn_fast_sync.Tag.{Tag, TaggedAccounts}
use jmdn_fast_sync.Wire.{Auth, Ack, Phase}

-- `HeaderSyncRequest` and `DataSyncRequest`, as a peer may send them.
pub record TagRequest : Type 0 where
  pub tag : Option Tag
  pub phase : Option Phase

pub record HeaderSyncMessage : Type 0 where
  pub tag : Option Tag
  pub ack : Ack
  pub phase : Phase

pub record PriorSyncMessage (Snapshot : Type 0) : Type 0 where
  pub priorsync : Option (PriorSync Snapshot)
  pub ack : Option Ack
  pub phase : Option Phase
  pub headersync : Option HeaderSyncMessage

pub record HeaderSyncResponse : Type 0 where
  pub header : List Header
  pub ack : Ack
  pub phase : Phase

-- `Transaction`, as far as it is read.
pub record Transfer : Type 0 where
  pub from : Bytes
  pub to : Bytes

-- `NonHeaders`, as far as it is read; the `Tx` of a transaction may be missing.
pub record NonHeaders : Type 0 where
  pub block_number : ℕ
  pub transactions : List (Option Transfer)

pub record DataSyncResponse : Type 0 where
  pub content : List NonHeaders
  pub taggedaccounts : TaggedAccounts
  pub ack : Ack
  pub phase : Phase

-- What the node reads of its chain: `types.BlockInfo` with its iterators.
pub record Chain : Type 0 where
  pub block_number : ℕ
  pub stateroot : Bytes
  pub blockhash : Bytes
  pub headers : List ℕ → Result (List Header)
  pub headers_range : ℕ → ℕ → Result (List Header)
  pub non_headers : List ℕ → Result (List NonHeaders)
  pub non_headers_range : ℕ → ℕ → Result (List NonHeaders)

-- The token cache. `reset_ttl` is the cache after the call, whose error is only logged.
pub record Tokens : Type 1 where
  pub Cache : Type 0
  pub Peer : Type 0
  pub is_auth : Cache → Peer → String → Result Bool
  pub reset_ttl : Cache → Peer → Cache

-- The part of the router that one request does not change: the flag of core/availability, and the chain,
-- `none` when it is nil.
pub record Service : Type 0 where
  pub available : Bool
  pub chain : Option Chain

abbrev pub refused : String → Ack
refused text = record { succeeded = false; error = text }

-- A `Phase` with `Success: false`.
abbrev pub failed_phase : String → String → String → Option Auth → Phase
failed_phase present successive text auth = record {
  present_phase = present;
  successive_phase = successive;
  success = false;
  error = text;
  auth = auth;
}

abbrev pub with_auth : Option Auth → Phase → Phase
with_auth auth phase = record phase { auth = auth }

abbrev pub metadata_required : String
metadata_required = "metadata is required"

abbrev pub auth_required : String
auth_required = "authentication is required"

abbrev pub authentication_failed : String
authentication_failed = "authentication failed"

abbrev pub unknown : String
unknown = "unknown"

-- The `Auth` of a phase that may be missing; reading a field of a nil message panics.
abbrev pub auth_of : Option Phase → Answer (Option Auth)
auth_of none = panicked
auth_of (some phase) = answered phase.auth

module _ (tokens : Tokens) where
  open tokens use {Cache, Peer, is_auth, reset_ttl}

  -- `Authenticate`, for a token that the caller has already found.
  unfoldable pub authenticate : Service → Cache → Auth → Peer → Answer (Result Bool)
  authenticate node cache auth remote =
      if str_eq auth.uuid ""
      then answered (fails "authentication request is nil or UUID is empty")
      else (if node.available
          then elim node.chain [
            | none ↦ panicked
            | some chain ↦ answered (is_auth cache remote auth.uuid)
          ]
          else answered (fails "node is not available for fast sync"))

  -- `err != nil || !authenticated`
  abbrev pub rejects : Result Bool → Bool
  rejects (fails e) = true
  rejects (ok true) = false
  rejects (ok false) = true

  -- What every handler does around its body: a request without a token or with an empty one gets
  -- `missing`, one that is not authenticated gets `rejected`; the body's reply is followed by the
  -- deferred `ResetTTL`.
  unfoldable pub gate :
      {Reply : Type 0}
      → Service
      → Cache
      → Option Auth
      → Peer
      → Reply
      → Reply
      → Answer Reply
      → Answer (Reply × Cache)
  unfolding authenticate
  gate node cache none remote missing rejected body = answered (missing, cache)
  gate node cache (some auth) remote missing rejected body =
      if str_eq auth.uuid ""
      then answered (missing, cache)
      else authenticate node cache auth remote >>= λ verdict.
          if rejects verdict
          then answered (rejected, cache)
          else body >>= λ reply. answered (reply, reset_ttl cache remote)
