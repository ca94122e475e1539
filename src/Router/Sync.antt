-- ===== src/Router/Sync.antt =====
-- The answer to a PriorSync request: SYNC_REQUEST of
-- core/protocol/router/data_router.go, with the registration of core/protocol/router/bisection.go.
pub mod Covers
pub mod Heights
use Prim.Native.String.{String}
use text.Mathlib.Text.{◌==◌ as str_eq}
use jmdn_fast_sync.Common.{
  ℕ, ◌+◌, Bool, true, false, ◌||◌, ◌&&◌, Option, none, some, [], ltb, leb, ◌==◌, sub64, u64_mod,
  ◌-◌, if◌then◌else◌, not,
}
use jmdn_fast_sync.Common.Result.{Result, ok, fails, Answer, answered, panicked, endless, ◌>>=◌}
use jmdn_fast_sync.Bisection.{Trees, layer_threshold, data_bisect, tagged, failed, out_of_fuel}
use jmdn_fast_sync.Checksum.{
  MerkleRange, PriorMetadata, PriorSync, Encoded, u16, verify_from_pb, create_from_pb,
}
use jmdn_fast_sync.Pots.BlockMap.{Bytes}
use jmdn_fast_sync.Pots.Compare.{bytes_equal}
use jmdn_fast_sync.Router.{Chain, HeaderSyncMessage, PriorSyncMessage, refused, failed_phase}
use jmdn_fast_sync.Router.Serve.{
  Stage, reconstruction, generation, target_root, local_root, bisection, SnapshotConfig, full_sync,
  header_sync_message,
}
use jmdn_fast_sync.Tag.{Tag}
use jmdn_fast_sync.Wire.{
  Auth, failure, accepted, success_phase, header_sync_request, header_sync_response,
  data_sync_request,
}

abbrev pub sync_request_response : String
sync_request_response = "state:priorsync:syncrequestresponse"

abbrev pub min_blocks : ℕ
min_blocks = 500

-- The answer of the client to an availability request.
pub record Registration : Type 0 where
  pub is_available : Bool
  pub auth : Option Auth

-- The functions that the answer calls: the checksums and the encoder, the Merkle library (`nil_tree` is
-- `FromSnapshot` of a nil snapshot), the texts of its errors, and the client's answer to a
-- registration, `none` when it cannot be reached.
pub record World : Type 1 where
  pub crc32 : Bytes → ℕ
  pub sha256 : Bytes → Bytes
  pub marshal : Encoded → Result Bytes
  pub trees : Trees
  pub config : trees.Snapshot → Option SnapshotConfig
  pub nil_tree : Answer (Option trees.Builder)
  pub text : Stage → String
  pub generation_panics : ℕ → ℕ → Bool
  pub registration : Option Registration

-- The guard of SYNC_REQUEST on `req.Range`.
unfoldable pub clamp_range : ℕ → Option MerkleRange → MerkleRange
clamp_range height none = record { start = 0; end = height }
clamp_range height (some range) =
    if (range.end == u64_mod - 1) || ltb height range.end
    then record { start = range.start; end = height }
    else range

-- `registerWithClient`: the new UUID.
unfoldable pub register_with_client : Option Registration → Option String
register_with_client none = none
register_with_client (some reply) = if not reply.is_available then none else elim reply.auth [
  | none ↦ none
  | some auth ↦ if str_eq auth.uuid "" then none else some auth.uuid
]

-- The first step of `dataBisect`: a router that has no UUID registers.
unfoldable pub ensure_registered : String → Option Registration → Option String
unfolding register_with_client
ensure_registered uuid reply = if str_eq uuid "" then register_with_client reply else some uuid

-- The test for a full synchronisation, where the difference of the heights wraps around.
unfoldable pub needs_full_sync : ℕ → ℕ → Bool
needs_full_sync client server = leb client min_blocks && leb min_blocks (sub64 server client)

module _ (world : World) where
  open world.trees use {Builder, Snapshot, same_hash, finalize, from_snapshot, generate}

  abbrev pub Message : Type 0
  Message = PriorSyncMessage Snapshot

  abbrev pub refuse : PriorSync Snapshot → String → Message
  refuse request text = record {
    priorsync = some request;
    ack = some (refused text);
    phase = some (failed_phase sync_request_response failure text none);
    headersync = none;
  }

  -- `ProtoToMerkleSnapshot` and `ReconstructTree`, with the configuration that is read of the result.
  unfoldable pub target_tree : Option Snapshot → Answer (Option (Builder × SnapshotConfig))
  target_tree none = world.nil_tree >>= λ t. elim t [ none ↦ answered none | some tree ↦ panicked ]
  target_tree (some snapshot) = elim (world.config snapshot) [
    | none ↦ panicked
    | some config ↦
        answered (elim (from_snapshot snapshot) [ none ↦ none | some tree ↦ some (tree, config) ])
  ]

  -- The reply to a client whose tree has the same root.
  abbrev pub in_sync : PriorSync Snapshot → Message
  in_sync request = record {
    priorsync = some request;
    ack = some accepted;
    phase = some (success_phase sync_request_response data_sync_request none);
    headersync =
        some (header_sync_message none (success_phase header_sync_request data_sync_request none));
  }

  -- The reply with the tag of the blocks that differ.
  abbrev pub to_sync : PriorSync Snapshot → Tag → Message
  to_sync request tag = record {
    priorsync = some request;
    ack = some accepted;
    phase = some (success_phase sync_request_response header_sync_request none);
    headersync = some (
        header_sync_message (some tag)
          (success_phase header_sync_request header_sync_response none));
  }

  -- `dataBisect`, called for trees with unequal roots.
  unfoldable pub bisect_trees :
      String → PriorSync Snapshot → Builder → Builder → Answer (Message × String)
  unfolding ensure_registered
  bisect_trees uuid request mine target = elim (ensure_registered uuid world.registration) [
    | none ↦ answered (refuse request (world.text bisection), uuid)
    | some uuid' ↦ elim (data_bisect world.trees (layer_threshold + 1) mine target) [
      | failed ↦ answered (refuse request (world.text bisection), uuid')
      | tagged tag ↦ answered (to_sync request tag, uuid')
      | out_of_fuel ↦ endless
    ]
  ]

  -- The comparison of the two roots.
  unfoldable pub compare_roots :
      String → PriorSync Snapshot → Builder → Builder → Answer (Message × String)
  unfolding bisect_trees
  compare_roots uuid request mine target = elim (finalize target) [
    | none ↦ answered (refuse request (world.text target_root), uuid)
    | some theirs ↦ elim (finalize mine) [
      | none ↦ answered (refuse request (world.text local_root), uuid)
      | some ours ↦
          if same_hash theirs ours
          then answered (in_sync request, uuid)
          else bisect_trees uuid request mine target
    ]
  ]

  -- The comparison of the two chains by their Merkle trees. The range of the request is replaced in the
  -- request itself, which the reply returns.
  unfoldable pub compare_chains : String → ℕ → PriorSync Snapshot → Answer (Message × String)
  unfolding target_tree clamp_range compare_roots
  compare_chains uuid height request = target_tree request.merklesnapshot >>= λ t. elim t [
    | none ↦ answered (refuse request (world.text reconstruction), uuid)
    | some (target, config) ↦
        let range = clamp_range height request.range in
        let request' : PriorSync Snapshot = record request { range = some range } in
        elim (generate range.start range.end config.block_merge config.expected_total) [
          | none ↦ answered (refuse request' (world.text generation), uuid)
          | some mine ↦ compare_roots uuid request' mine target
        ]
  ]

  -- SYNC_REQUEST, with the router's own UUID before and after.
  unfoldable pub sync_request :
      String → Option Chain → PriorSync Snapshot → Answer (Message × String)
  unfolding needs_full_sync compare_chains
  sync_request uuid chain request = elim request.metadata [
    | none ↦ panicked
    | some metadata ↦
        elim (verify_from_pb world.crc32 world.sha256 world.marshal request (u16 metadata.version)
          metadata.checksum) [
            | fails e ↦ answered (refuse request e, uuid)
            | ok false ↦ answered (refuse request "checksum mismatch", uuid)
            | ok true ↦ elim chain [
              | none ↦ answered (refuse request "block info is nil", uuid)
              | some chain' ↦
                  if needs_full_sync request.blocknumber chain'.block_number
                  then (full_sync request chain'.block_number >>= λ m. answered (m, uuid))
                  else compare_chains uuid chain'.block_number request
            ]
          ]
  ]
