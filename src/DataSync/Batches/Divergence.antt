-- ===== src/DataSync/Batches/Divergence.antt =====
-- A range that ends at the greatest `uint64`: `currStart = currEnd + 1` wraps to 0, and the inner loop
-- of `buildDataBatches` does not end.
use jmdn_fast_sync.Common.{
  ℕ, zero, suc, ◌-◌, ◌≤◌, ◌≡◌, refl, ap, ◌∙◌, Option, none, true, List, [], ◌∷◌, u64_mod, add64,
  leb, arith,
}
use jmdn_fast_sync.Common.Sort.{sort}
use jmdn_fast_sync.Tag.{RangeTag}
use jmdn_fast_sync.Tag.Packing.{Packing, start}
use jmdn_fast_sync.DataSync.Batches.{
  max_data_per_request, make_data_batch_request, chunk, split_range, split_ranges,
  build_data_batches,
}
use jmdn_fast_sync.Wire.{Auth, DataSyncRequest}

abbrev pub max_u64 : ℕ
max_u64 = u64_mod - 1

module _ (version : ℕ) (auth : Option Auth) where
  chunk-le : (p : Packing DataSyncRequest) (s : ℕ) → (chunk version auth p s max_u64).1 ≤ max_u64
  unfolding chunk add64
  chunk-le p s = ground arith

  split_range-diverges :
      (fuel : ℕ) (p : Packing DataSyncRequest) (s : ℕ)
      → s ≤ max_u64
      → split_range version auth fuel p s max_u64 ≡ none
  unfolding split_range
  split_range-diverges zero p s h = refl
  split_range-diverges (suc fuel) p s h =
      let t : leb s max_u64 ≡ true = ground arith in
      rw (t, split_range)
        (split_range-diverges fuel (chunk version auth p s max_u64).0 _ (chunk-le p s))

  split_range-at :
      (fuel : ℕ) (p : Packing DataSyncRequest) (r : RangeTag)
      → r.end ≡ max_u64
      → r.start ≤ max_u64
      → split_range version auth fuel p r.start r.end ≡ none
  split_range-at fuel p r e h =
      ap (split_range version auth fuel p r.start) e ∙ split_range-diverges fuel p r.start h

  split_ranges-diverges :
      (fuel : ℕ) (r : RangeTag)
      → r.end ≡ max_u64
      → r.start ≤ max_u64
      → split_ranges version auth fuel
          (start max_data_per_request (make_data_batch_request version auth))
          (r ∷ [])
        ≡ none
  unfolding split_ranges
  split_ranges-diverges fuel r e h = rw (split_range-at fuel _ r e h, split_ranges)

-- With a range that ends at the greatest 64-bit number, however long it runs, `buildDataBatches`
-- returns no batches.
pub build_data_batches-diverges :
    (fuel : ℕ) (r : RangeTag) (blocks : List ℕ) (version : ℕ) (auth : Option Auth)
    → r.start ≤ max_u64
    → r.end ≡ max_u64
    → build_data_batches fuel (record { block_number = blocks; range = r ∷ [] }) version auth ≡ none
unfolding build_data_batches sort
build_data_batches-diverges fuel r blocks version auth h e =
    rw (split_ranges-diverges version auth fuel r e h, build_data_batches)
