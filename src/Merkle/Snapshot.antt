-- ===== src/Merkle/Snapshot.antt =====
-- helper/merkle/merkle_converter.go: a snapshot of a Merkle tree and its message. The snapshot is that of
-- the Merkle library, with the fields that the converter reads; a slice that is nil and one that is empty
-- are the same.
pub mod RoundTrip
use jmdn_fast_sync.Common.{
  ℕ, ◌-◌, ◌%◌, ◌^◌, Bool, false, Option, none, some, List, [], ◌∷◌, map, length, ltb, ◌==◌,
  if◌then◌else◌,
}
use jmdn_fast_sync.Common.Int.{ℤ, pos, negsuc}
use jmdn_fast_sync.Common.Result.{Answer, answered, panicked}
use jmdn_fast_sync.Pots.BlockMap.{Bytes}

-- `SnapshotNode` of the library; `nil_node` is the nil pointer.
pub data TreeNode : Type 0 where
  nil_node : TreeNode
  node :
      (left right : TreeNode) (root : Bytes) (start count : ℕ) (contents : Bytes) (has_data : Bool)
      → TreeNode

-- `SnapshotNode` of common/proto/merkle.
pub data ProtoNode : Type 0 where
  nil_proto : ProtoNode
  proto_node :
      (left right : ProtoNode) (root : Bytes) (start count : ℕ) (contents : Bytes) (has_data : Bool)
      → ProtoNode

pub record TreeConfig : Type 0 where
  pub block_merge : ℤ
  pub expected_total : ℕ

-- `MerkleTreeSnapshot`
pub record TreeSnapshot : Type 0 where
  pub version : ℤ
  pub config : TreeConfig
  pub total_blocks : ℕ
  pub expected_next_height : ℕ
  pub enforce_heights : Bool
  pub in_chunk_elems : List Bytes
  pub in_chunk_start : ℕ
  pub peaks : List TreeNode

-- `MerkleSnapshot` of common/proto/merkle.
pub record ProtoSnapshot : Type 0 where
  pub version : ℤ
  pub config : Option TreeConfig
  pub total_blocks : ℕ
  pub expected_next_height : ℕ
  pub enforce_heights : Bool
  pub in_chunk_elems : List Bytes
  pub in_chunk_start : ℕ
  pub peaks : List ProtoNode

-- The 32 lowest bits of an integer, and the signed number that they stand for.
abbrev pub low_bits : ℤ → ℕ
low_bits (pos n) = n % 2 ^ 32
low_bits (negsuc n) = 2 ^ 32 - 1 - n % 2 ^ 32

abbrev pub signed : ℕ → ℤ
signed r = if ltb r (2 ^ 31) then pos r else negsuc (2 ^ 32 - 1 - r)

-- `int32(n)`
unfoldable pub int32 : ℤ → ℤ
int32 z = signed (low_bits z)

abbrev pub sentinel : ProtoNode
sentinel = proto_node nil_proto nil_proto [] 0 0 [] false

unfoldable pub snapshot_node_to_proto : TreeNode → ProtoNode
snapshot_node_to_proto nil_node = sentinel
snapshot_node_to_proto (node left right root start count contents has_data) =
    proto_node (snapshot_node_to_proto left) (snapshot_node_to_proto right) root start count
      contents has_data

-- `MerkleSnapshotToProto`; its caller gives no nil snapshot.
unfoldable pub merkle_snapshot_to_proto : TreeSnapshot → ProtoSnapshot
unfolding int32 snapshot_node_to_proto
merkle_snapshot_to_proto m = record {
  version = int32 m.version;
  config = some (record {
    block_merge = int32 m.config.block_merge;
    expected_total = m.config.expected_total;
  });
  total_blocks = m.total_blocks;
  expected_next_height = m.expected_next_height;
  enforce_heights = m.enforce_heights;
  in_chunk_elems = m.in_chunk_elems;
  in_chunk_start = m.in_chunk_start;
  peaks = map snapshot_node_to_proto m.peaks;
}

unfoldable pub proto_to_snapshot_node : ProtoNode → TreeNode
proto_to_snapshot_node nil_proto = nil_node
proto_to_snapshot_node (proto_node left right root start count contents has_data) =
    let left' = proto_to_snapshot_node left in
    let right' = proto_to_snapshot_node right in
    if length root == 32 then node left' right' root start count contents has_data else nil_node

-- `ProtoToMerkleSnapshot`, for a message that is there; a message without its configuration panics.
unfoldable pub proto_to_merkle_snapshot : ProtoSnapshot → Answer TreeSnapshot
unfolding proto_to_snapshot_node
proto_to_merkle_snapshot m = elim m.config [
  | none ↦ panicked
  | some config ↦ answered (record {
    version = m.version;
    config = config;
    total_blocks = m.total_blocks;
    expected_next_height = m.expected_next_height;
    enforce_heights = m.enforce_heights;
    in_chunk_elems = m.in_chunk_elems;
    in_chunk_start = m.in_chunk_start;
    peaks = map proto_to_snapshot_node m.peaks;
  })
]
