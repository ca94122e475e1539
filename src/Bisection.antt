-- ===== src/Bisection.antt =====
-- core/protocol/router/bisection.go: the block ranges in which the Merkle trees of two nodes differ are
-- narrowed down layer by layer and tagged. The Merkle tree library, the peer's answers and the
-- generation of the local sub-trees are parameters.
pub mod Layers
pub mod Complete
pub mod Terminates
use jmdn_fast_sync.Common.{
  ℕ, zero, suc, ◌+◌, ◌-◌, ◌/◌, Bool, true, false, Option, none, some, List, [], ◌∷◌, ◌++◌, map,
  add64, sub64, u64_mod, ltb, leb, ◌==◌, if◌then◌else◌, not,
}
use jmdn_fast_sync.Tag.{Tag, Tagging, new_tagging, tag_range}
use jmdn_fast_sync.Wire.{Ack}

abbrev pub leaf_threshold : ℕ
leaf_threshold = 10

abbrev pub layer_threshold : ℕ
layer_threshold = 6

-- `bisectionWorkItem`
pub record WorkItem : Type 0 where
  pub start : ℕ
  pub count : ℕ
  pub layer : ℕ

-- A range that `TreeDiff` reports.
pub record Diff : Type 0 where
  pub start : ℕ
  pub count : ℕ

-- A node as `GetLatestBlockNumber` reads it: its metadata, and its right child if there is one.
pub data Node : Type 0 where
  last : ℕ → ℕ → Node
  inner : ℕ → ℕ → Node → Node

-- `MerkleMessage`, as far as it is read.
pub record MerkleReply (Snapshot : Type 0) : Type 0 where
  pub ack : Option Ack
  pub snapshot : Option Snapshot

-- The Merkle library, the peer and the local block store. `none` is an error; `send` takes the first
-- block, the last block, the block merge and the number of blocks of a sub-tree.
pub record Trees : Type 1 where
  pub Builder : Type 0
  pub Snapshot : Type 0
  pub Hash : Type 0
  pub same_hash : Hash → Hash → Bool
  pub finalize : Builder → Option Hash
  pub root_node : Builder → Option (Option Node)
  pub tree_diff : Builder → Builder → Option (List Diff)
  pub from_snapshot : Snapshot → Option Builder
  pub send : ℕ → ℕ → ℕ → ℕ → Option (MerkleReply Snapshot)
  pub generate : ℕ → ℕ → ℕ → ℕ → Option Builder

-- The last node down the right children.
abbrev pub rightmost : Node → ℕ × ℕ
rightmost (last start count) = (start, count)
rightmost (inner start count right) = rightmost right

-- `math.Ceil(float64(count) * 0.05)`, at least 1. The product is rounded to the nearest double, which
-- for a 32-bit count does not change the ceiling.
unfoldable pub calculate_sub_block_merge : ℕ → ℕ
calculate_sub_block_merge count = let merge = (count + 19) / 20 in if ltb merge 1 then 1 else merge

-- `start + uint64(count) - 1`
unfoldable pub end_inclusive : ℕ → ℕ → ℕ
end_inclusive start count = sub64 (add64 start count) 1

unfoldable pub tag_item : Tagging → WorkItem → Tagging
unfolding end_inclusive
tag_item t item = tag_range t item.start (end_inclusive item.start item.count)

pub data Outcome : Type 0 where
  tagged : Tag → Outcome
  failed : Outcome
  out_of_fuel : Outcome

abbrev pub child : WorkItem → Diff → WorkItem
child item d = record { start = d.start; count = d.count; layer = item.layer + 1 }

-- The work that the first comparison leaves.
abbrev pub seed : List Diff → List WorkItem
seed = map (λ d. record { start = d.start; count = d.count; layer = 0 })

module _ (trees : Trees) where
  open trees use {
    Builder, Snapshot, same_hash, finalize, root_node, tree_diff, from_snapshot, send, generate,
  }

  -- `GetLatestBlockNumber` of core/protocol/router/helper/helper.go.
  unfoldable pub get_latest_block_number : Builder → Option ℕ
  unfolding end_inclusive
  get_latest_block_number b = elim (root_node b) [
    | none ↦ none
    | some root ↦ elim root [
      | none ↦ none
      | some node ↦ let (start, count) = rightmost node in some (end_inclusive start count)
    ]
  ]

  refused : Option Ack → Bool
  refused none = false
  refused (some ack) = not ack.succeeded

  -- `requestSubTree`, for a response whose snapshot has its configuration: the conversion panics on one
  -- without.
  unfoldable pub request_sub_tree : ℕ → ℕ → ℕ → Option Builder
  unfolding refused end_inclusive
  request_sub_tree start count merge = elim (send start (end_inclusive start count) merge count) [
    | none ↦ none
    | some reply ↦
        if refused reply.ack
        then none
        else elim reply.snapshot [ none ↦ none | some snapshot ↦ from_snapshot snapshot ]
  ]

  -- `buildLocalSubtree`
  unfoldable pub build_local_subtree : ℕ → ℕ → ℕ → Option Builder
  unfolding end_inclusive
  build_local_subtree start count merge = generate start (end_inclusive start count) merge count

  -- The first loop over a layer: small ranges, and ranges beyond the peer's last block, are tagged.
  unfoldable pub triage : ℕ → Tagging → List WorkItem → Tagging × List WorkItem
  triage peer_height t [] = (t, [])
  triage peer_height t (item ∷ items) =
      let now = if leb item.count leaf_threshold then true else ltb peer_height item.start in
      let (t', todo) = triage peer_height (if now then tag_item t item else t) items in
      (t', if now then todo else item ∷ todo)

  -- The second loop over a layer: each remaining range is compared in more detail.
  unfoldable pub refine : Tagging → List WorkItem → List WorkItem → Option (Tagging × List WorkItem)
  unfolding calculate_sub_block_merge request_sub_tree build_local_subtree
  refine t next [] = some (t, next)
  refine t next (item ∷ items) =
      let merge = calculate_sub_block_merge item.count in
      elim (request_sub_tree item.start item.count merge) [
        | none ↦ refine (tag_item t item) next items
        | some target ↦ elim (build_local_subtree item.start item.count merge) [
          | none ↦ none
          | some mine ↦ elim (tree_diff mine target) [
            | none ↦ none
            | some diffs ↦ refine t (next ++ map (child item) diffs) items
          ]
        ]
      ]

  unfoldable pub tag_all : Tagging → List WorkItem → Tagging
  tag_all t [] = t
  tag_all t (item ∷ items) = tag_all (tag_item t item) items

  -- The loop over the layers, with what is tagged after it.
  unfoldable pub bisect : ℕ → ℕ → Tagging → List WorkItem → Outcome
  bisect zero peer_height t items = out_of_fuel
  bisect (suc fuel) peer_height t [] = tagged t.tag
  bisect (suc fuel) peer_height t (item ∷ items) =
      let (t', todo) = triage peer_height t (item ∷ items) in
      elim (leb layer_threshold item.layer) [
        | true ↦ tagged (tag_all t (item ∷ items)).tag
        | false ↦ elim (refine t' [] todo) [
          | none ↦ failed
          | some (t'', next) ↦ bisect fuel peer_height t'' next
        ]
      ]

  -- `dataBisect`, for a router that is registered with the peer. With no differences the loop ends at
  -- once, as the early return does.
  unfoldable pub data_bisect : ℕ → Builder → Builder → Outcome
  unfolding triage refine tag_all bisect get_latest_block_number
  data_bisect fuel local_tree target_tree = elim (finalize local_tree) [
    | none ↦ failed
    | some root_local ↦ elim (finalize target_tree) [
      | none ↦ failed
      | some root_target ↦
          if same_hash root_local root_target
          then tagged new_tagging.tag
          else elim (tree_diff local_tree target_tree) [
            | none ↦ failed
            | some diffs ↦ elim (get_latest_block_number target_tree) [
              | none ↦ bisect fuel (u64_mod - 1) new_tagging (seed diffs)
              | some height ↦ bisect fuel height new_tagging (seed diffs)
            ]
          ]
    ]
  ]
