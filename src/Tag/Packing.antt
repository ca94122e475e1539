-- ===== src/Tag/Packing.antt =====
-- The part that `buildBatches` of core/headersync/headersync.go and `buildDataBatches` of
-- core/datasync/datasync.go share: requests of a bounded number of blocks are filled one after the
-- other. `make` wraps a tag into a request, `limit` is the bound.
pub mod Laws
use jmdn_fast_sync.Common.{ℕ, List, [], ◌∷◌, ◌++◌, ◌&&◌, add64, ltb, if◌then◌else◌}
use jmdn_fast_sync.Tag.{Tag, empty_tag, push_block}

-- The locals `batches`, `currentTag` and `currentCount`.
pub record Packing {ℓ} (Request : Type ℓ) : Type ℓ where
  pub batches : List Request
  pub current : Tag
  pub count : ℕ

module _ {ℓ} {Request : Type ℓ} (limit : ℕ) (make : Tag → Request) where
  abbrev pub start : Packing Request
  start = record { batches = []; current = empty_tag; count = 0 }

  -- `batches = append(batches, make(currentTag)); currentTag = &Tag{}; currentCount = 0`
  unfoldable pub flush : Packing Request → Packing Request
  flush p = record { batches = p.batches ++ make p.current ∷ []; current = empty_tag; count = 0 }

  -- One round of the loop over the single block numbers.
  unfoldable pub add_block : Packing Request → ℕ → Packing Request
  add_block p block =
      let q = if ltb 0 p.count && ltb limit (add64 p.count 1) then flush p else p in
      record q { current = push_block q.current block; count = add64 q.count 1 }

  unfoldable pub add_blocks : Packing Request → List ℕ → Packing Request
  add_blocks p [] = p
  add_blocks p (block ∷ blocks) = add_blocks (add_block p block) blocks

  -- "Flush remaining".
  unfoldable pub finish : Packing Request → List Request
  unfolding flush
  finish p = if ltb 0 p.count then (flush p).batches else p.batches
