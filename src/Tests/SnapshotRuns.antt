-- ===== src/Tests/SnapshotRuns.antt =====
-- A snapshot with an empty slot, a leaf and a pair, sent and received.
use jmdn_fast_sync.Common.{ℕ, ◌≡◌, ◌↔◌, refl, false, true, List, [], ◌∷◌, ◌++◌}
use jmdn_fast_sync.Common.Int.{pos, negsuc}
use jmdn_fast_sync.Common.Result.{answered}
use jmdn_fast_sync.Merkle.Snapshot.{
  TreeNode, nil_node, node, TreeSnapshot, int32, snapshot_node_to_proto, merkle_snapshot_to_proto,
  proto_to_snapshot_node, proto_to_merkle_snapshot,
}
use jmdn_fast_sync.Merkle.Snapshot.RoundTrip.{
  IsCarried, proto_to_merkle_snapshot-merkle_snapshot_to_proto,
}

abbrev eight : ℕ → List ℕ
eight n = n ∷ 1 ∷ 2 ∷ 3 ∷ 4 ∷ 5 ∷ 6 ∷ 7 ∷ []

abbrev root_of : ℕ → List ℕ
root_of n = eight n ++ (eight n ++ (eight n ++ eight n))

abbrev leaf : ℕ → TreeNode
leaf n = node nil_node nil_node (root_of n) n 1 [] false

abbrev snapshot : TreeSnapshot
snapshot = record {
  version = pos 1;
  config = record { block_merge = pos 100; expected_total = 5 };
  total_blocks = 3;
  expected_next_height = 3;
  enforce_heights = true;
  in_chunk_elems = root_of 9 ∷ [];
  in_chunk_start = 3;
  peaks = leaf 2 ∷ nil_node ∷ node (leaf 0) (leaf 1) (root_of 5) 0 2 [] false ∷ [];
}

proto_to_merkle_snapshot-merkle_snapshot_to_proto_example :
    (proto_to_merkle_snapshot (merkle_snapshot_to_proto snapshot) ≡ answered snapshot)
    ↔ IsCarried snapshot
proto_to_merkle_snapshot-merkle_snapshot_to_proto_example =
    proto_to_merkle_snapshot-merkle_snapshot_to_proto snapshot

carried : proto_to_merkle_snapshot (merkle_snapshot_to_proto snapshot) ≡ answered snapshot
unfolding proto_to_merkle_snapshot merkle_snapshot_to_proto proto_to_snapshot_node
    snapshot_node_to_proto int32
carried = refl

-- A version of 33 bits loses the highest one.
wrapped : int32 (pos 4294967295) ≡ negsuc 0
unfolding int32
wrapped = refl
