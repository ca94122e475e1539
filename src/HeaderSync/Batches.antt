-- ===== src/HeaderSync/Batches.antt =====
-- `buildBatches` and `makeBatchRequest` of core/headersync/headersync.go.
pub mod Laws
use jmdn_fast_sync.Common.{ℕ, Option, List, [], ◌∷◌, ◌&&◌, add64, sub64, ltb, leb, if◌then◌else◌}
use jmdn_fast_sync.Common.Sort.{sort}
use jmdn_fast_sync.Tag.{RangeTag, Tag, push_range}
use jmdn_fast_sync.Tag.Packing.{Packing, start, flush, add_block, add_blocks, finish}
use jmdn_fast_sync.Wire.{
  Auth, HeaderSyncRequest, accepted, success_phase, header_sync_request, header_sync_response,
}

abbrev pub max_headers_per_request : ℕ
max_headers_per_request = 1500

abbrev pub make_batch_request : Option Auth → Tag → HeaderSyncRequest
make_batch_request auth tag = record {
  tag = tag;
  ack = accepted;
  phase = success_phase header_sync_request header_sync_response auth;
}

-- `r.End - r.Start + 1`
unfoldable pub range_size : RangeTag → ℕ
range_size r = add64 (sub64 r.end r.start) 1

module _ (auth : Option Auth) where
  -- One round of the loop over the ranges.
  pub add_range : Packing HeaderSyncRequest → RangeTag → Packing HeaderSyncRequest
  add_range p r =
      let limit = max_headers_per_request in
      let size = range_size r in
      let q =
        if ltb 0 p.count && ltb limit (add64 p.count size)
        then flush limit (make_batch_request auth) p
        else p in
      let q' = record q { current = push_range q.current r; count = add64 q.count size } in
      if leb limit q'.count then flush limit (make_batch_request auth) q' else q'

  pub add_ranges : Packing HeaderSyncRequest → List RangeTag → Packing HeaderSyncRequest
  add_ranges p [] = p
  add_ranges p (r ∷ rs) = add_ranges (add_range p r) rs

unfoldable pub build_batches : Tag → Option Auth → List HeaderSyncRequest
unfolding add_ranges add_range range_size
build_batches tag auth =
    let limit = max_headers_per_request in
    let make = make_batch_request auth in
    let ranged = add_ranges auth (start limit make) (sort (λ r. r.start) tag.range) in
    finish limit make (add_blocks limit make ranged (sort (λ n. n) tag.block_number))
