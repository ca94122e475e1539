-- ===== src/Merkle.antt =====
-- core/protocol/merkle/merkle.go: the Merkle tree of a range of blocks, in which a missing block has the
-- empty hash. The builder of the Merkle library and the block iterator are parameters. A gap that is too
-- long for a slice panics.
pub mod Snapshot
use jmdn_fast_sync.Common.{
  ℕ, zero, suc, ◌-◌, ◌≡◌, refl, Option, none, some, List, [], ◌∷◌, add64, sub64, u64_mod, ltb, leb,
  ◌==◌, if◌then◌else◌,
}
use jmdn_fast_sync.Common.Result.{Answer, answered, panicked, ◌>>=◌}

-- `ZKBlock`, as far as it is read.
pub record Block (Hash : Type 0) : Type 0 where
  pub number : ℕ
  pub hash : Hash

-- The builder: `push` takes the height of the first hash; `none` is an error. `next_batches` are the
-- answers of the iterator over a range up to its nil. `latest` is `GetBlockNumber`. `make` panics for a
-- slice of more than `slice_limit` hashes.
pub record Library : Type 1 where
  pub Builder : Type 0
  pub Hash : Type 0
  pub empty_hash : Hash
  pub new_builder : ℕ → ℕ → Option Builder
  pub push : Builder → ℕ → List Hash → Option Builder
  pub finalize : Builder → Option Hash
  pub next_batches : ℕ → ℕ → List (Option (List (Block Hash)))
  pub latest : ℕ
  pub slice_limit : ℕ

module _ (lib : Library) where
  open lib use {
    Builder, Hash, empty_hash, new_builder, push, finalize, next_batches, latest, slice_limit,
  }

  empty_hashes : ℕ → List Hash
  empty_hashes zero = []
  empty_hashes (suc n) = empty_hash ∷ empty_hashes n

  -- `make([]merkletree.Hash32, n)`, filled with the empty hash
  unfoldable pub padding : ℕ → Answer (List Hash)
  unfolding empty_hashes
  padding n = if ltb slice_limit n then panicked else answered (empty_hashes n)

  -- The builder and `expectedBlockNumber`.
  abbrev pub Progress : Type 0
  Progress = Builder × ℕ

  -- The push of one block, at its number.
  abbrev pub push_hash : Builder → Block Hash → Option Progress
  push_hash builder block = elim (push builder block.number (block.hash ∷ [])) [
    | none ↦ none
    | some builder' ↦ some (builder', add64 block.number 1)
  ]

  -- One round of the inner loop: a gap before the block is filled first.
  unfoldable pub push_block : Progress → Block Hash → Answer (Option Progress)
  unfolding padding
  push_block (builder, expected) block =
      if ltb expected block.number
      then padding (block.number - expected) >>= (λ gap. elim (push builder expected gap) [
        | none ↦ answered none
        | some builder' ↦ answered (push_hash builder' block)
      ])
      else answered (push_hash builder block)

  unfoldable pub push_blocks : Progress → List (Block Hash) → Answer (Option Progress)
  unfolding push_block
  push_blocks p [] = answered (some p)
  push_blocks p (b ∷ bs) =
      push_block p b >>= (λ r. elim r [ none ↦ answered none | some p' ↦ push_blocks p' bs ])

  -- The loop over `iterator.Next()`.
  unfoldable pub push_batches :
      Progress → List (Option (List (Block Hash))) → Answer (Option Progress)
  unfolding push_blocks
  push_batches p [] = answered (some p)
  push_batches p (none ∷ rest) = answered none
  push_batches p (some bs ∷ rest) =
      push_blocks p bs >>= (λ r. elim r [ none ↦ answered none | some p' ↦ push_batches p' rest ])

  -- The gap behind the last block.
  unfoldable pub push_trailing : ℕ → Progress → Answer (Option Builder)
  unfolding padding
  push_trailing end (builder, expected) =
      if leb expected end
      then padding (add64 (sub64 end expected) 1) >>= (λ gap. answered (push builder expected gap))
      else answered (some builder)

  -- The part that both generators share, for a range and a block merge.
  unfoldable pub build : ℕ → ℕ → ℕ → Answer (Option Builder)
  unfolding push_batches push_trailing
  build start end merge = elim (new_builder (add64 (sub64 end start) 1) merge) [
    | none ↦ answered none
    | some builder ↦ push_batches (builder, start) (next_batches start end) >>= (λ r. elim r [
      | none ↦ answered none
      | some p ↦ push_trailing end p >>= (λ r'. elim r' [
        | none ↦ answered none
        | some builder' ↦ elim (finalize builder') [
          | none ↦ answered none
          | some root ↦ answered (some builder')
        ]
      ])
    ])
  ]

  -- `GenerateMerkleTreeWithConfig`: the greatest end stands for the latest block.
  unfoldable pub generate_merkle_tree_with_config : ℕ → ℕ → ℕ → Answer (Option Builder)
  unfolding build
  generate_merkle_tree_with_config start end merge =
      if end == (u64_mod - 1)
      then build start latest merge
      else (if ltb end start then answered none else build start end merge)

  -- `GenerateMerkleTree`. `merge_of` is the ceiling of 0.5 % of the range.
  unfoldable pub generate_merkle_tree : (ℕ → ℕ) → ℕ → ℕ → Answer (Option Builder)
  unfolding build
  generate_merkle_tree merge_of start end =
      if end == (u64_mod - 1)
      then build start latest (merge_of (add64 (sub64 latest start) 1))
      else (if ltb end start
          then answered none
          else build start end (merge_of (add64 (sub64 end start) 1)))
