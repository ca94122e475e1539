-- ===== src/DataSync/Batches.antt =====
-- `buildDataBatches` and `makeDataBatchRequest` of core/datasync/datasync.go.
pub mod Rounds
pub mod Loop
pub mod Laws
pub mod Divergence
use jmdn_fast_sync.Common.{
  ℕ, zero, suc, Bool, true, false, Option, none, some, List, [], ◌∷◌, add64, sub64, leb, ◌==◌,
  if◌then◌else◌,
}
use jmdn_fast_sync.Common.Sort.{sort}
use jmdn_fast_sync.Tag.{RangeTag, Tag, push_range}
use jmdn_fast_sync.Tag.Packing.{Packing, start as empty, flush, add_blocks, finish}
use jmdn_fast_sync.Wire.{
  Auth, DataSyncRequest, accepted, success_phase, data_sync_request, data_sync_response,
}

abbrev pub max_data_per_request : ℕ
max_data_per_request = 30

abbrev pub make_data_batch_request : ℕ → Option Auth → Tag → DataSyncRequest
make_data_batch_request version auth tag = record {
  tag = tag;
  version = version;
  ack = accepted;
  phase = success_phase data_sync_request data_sync_response auth;
}

module _ (version : ℕ) (auth : Option Auth) where
  -- `currentTag.Range = append(currentTag.Range, ...); currentCount += size`
  abbrev pub take_chunk : Packing DataSyncRequest → RangeTag → ℕ → Packing DataSyncRequest
  take_chunk p r size = record p { current = push_range p.current r; count = add64 p.count size }

  -- One round of the inner loop over a range: the locals, and the new `currStart`.
  pub chunk : Packing DataSyncRequest → ℕ → ℕ → Packing DataSyncRequest × ℕ
  chunk p start end =
      let limit = max_data_per_request in
      let make = make_data_batch_request version auth in
      let capacity = sub64 limit p.count in
      let pieces = add64 (sub64 end start) 1 in
      let whole = take_chunk p (record { start = start; end = end }) pieces in
      let chunk_end = sub64 (add64 start capacity) 1 in
      let part = take_chunk p (record { start = start; end = chunk_end }) capacity in
      if leb pieces capacity
      then (if whole.count == limit then flush limit make whole else whole, add64 end 1)
      else (flush limit make part, add64 chunk_end 1)

  -- `for currStart <= currEnd`; `none` means that the fuel ran out.
  pub split_range : ℕ → Packing DataSyncRequest → ℕ → ℕ → Option (Packing DataSyncRequest)
  split_range zero p start end = none
  split_range (suc fuel) p start end = elim (leb start end) [
    | true ↦ split_range fuel (chunk p start end).0 (chunk p start end).1 end
    | false ↦ some p
  ]

  -- The loop over the ranges, each with the same fuel.
  pub split_ranges : ℕ → Packing DataSyncRequest → List RangeTag → Option (Packing DataSyncRequest)
  split_ranges fuel p [] = some p
  split_ranges fuel p (r ∷ rs) = elim (split_range fuel p r.start r.end) [
    | none ↦ none
    | some q ↦ split_ranges fuel q rs
  ]

unfoldable pub build_data_batches : ℕ → Tag → ℕ → Option Auth → Option (List DataSyncRequest)
unfolding chunk split_range split_ranges
build_data_batches fuel tag version auth =
    let limit = max_data_per_request in
    let make = make_data_batch_request version auth in
    elim (split_ranges version auth fuel (empty limit make) (sort (λ r. r.start) tag.range)) [
      | none ↦ none
      | some p ↦ some (finish limit make (add_blocks limit make p (sort (λ n. n) tag.block_number)))
    ]
