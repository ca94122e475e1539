-- ===== src/Router/Replies.antt =====
-- The requests for trees, the refusals of the handlers of core/protocol/router/data_router.go, and the token
-- in their replies.
use Prim.Native.String.{String, ◌++◌ as joined}
use jmdn_fast_sync.Common.{Option, none, some, [], ◌-◌, u64_mod}
use jmdn_fast_sync.Common.Result.{ok, fails}
use jmdn_fast_sync.Checksum.{MerkleRange, PriorSync}
use jmdn_fast_sync.Pots.Response.{BlockInfo, PotsResponse}
use jmdn_fast_sync.Router.{
  PriorSyncMessage, HeaderSyncResponse, DataSyncResponse, Chain, refused, failed_phase, with_auth,
}
use jmdn_fast_sync.Router.Serve.{SnapshotConfig, MerkleMessage, request_merkle}
use jmdn_fast_sync.Wire.{Auth, Phase, failure, pots_response}

abbrev pub sync_request_state : String
sync_request_state = "state:priorsync:syncrequest"

-- `"unknown state: " + state`
abbrev pub unknown_state : String → String
unknown_state state = joined "unknown state: " state

-- `MerkleRequestMessage`, with its `MerkleRequest`.
pub record MerkleRequest : Type 0 where
  pub range : MerkleRange
  pub config : Option SnapshotConfig

pub record MerkleRequestMessage : Type 0 where
  pub request : Option MerkleRequest
  pub phase : Option Phase

-- The refusals, which carry the phase names, the text and the token.
abbrev pub refuse_headers : String → String → String → Option Auth → HeaderSyncResponse
refuse_headers present successive text auth = record {
  header = [];
  ack = refused text;
  phase = failed_phase present successive text auth;
}

abbrev pub refuse_data : String → String → String → Option Auth → DataSyncResponse
refuse_data present successive text auth = record {
  content = [];
  taggedaccounts = [];
  ack = refused text;
  phase = failed_phase present successive text auth;
}

abbrev pub refuse_merkle : {Snapshot : Type 0} → String → Option Auth → MerkleMessage Snapshot
refuse_merkle text auth = record {
  snapshot = none;
  ack = refused text;
  phase = failed_phase request_merkle failure text auth;
}

abbrev pub refuse_prior :
    {Snapshot : Type 0}
    → Option (PriorSync Snapshot)
    → String
    → String
    → String
    → Option Auth
    → PriorSyncMessage Snapshot
refuse_prior request present successive text auth = record {
  priorsync = request;
  ack = some (refused text);
  phase = some (failed_phase present successive text auth);
  headersync = none;
}

-- `Data.Phase.Auth = auth` and `Data.Headersync.Phase.Auth = auth`, where there is a phase.
abbrev pub authorize :
    {Snapshot : Type 0} → Option Auth → PriorSyncMessage Snapshot → PriorSyncMessage Snapshot
authorize auth message = record {
  priorsync = message.priorsync;
  ack = message.ack;
  phase = elim message.phase [ none ↦ none | some p ↦ some (with_auth auth p) ];
  headersync = elim message.headersync [
    | none ↦ none
    | some h ↦ some (record h { phase = with_auth auth h.phase })
  ];
}

-- `BlockInfo` as ProcessPoTSRequest calls it.
abbrev pub block_info : Chain → BlockInfo
block_info chain = record {
  height = chain.block_number;
  headers_range = λ first last. elim (chain.headers_range first last) [
    | fails e ↦ none
    | ok headers ↦ some headers
  ];
}

abbrev pub pots_template : String → Option Auth → PotsResponse
pots_template text auth = record {
  tag = none;
  latest_block_number = u64_mod - 1;
  phase = failed_phase pots_response failure text auth;
}
