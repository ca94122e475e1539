-- ===== src/DataSync/Batches/Laws.antt =====
-- What `buildDataBatches` asks for: every tagged block once and in order, at most 30 in a request.
use jmdn_fast_sync.Common.{
  ℕ, zero, suc, ◌+◌, ◌≤◌, ◌<◌, ◌≡◌, refl, sym, ap, ap₂, ◌∙◌, Option, some, List, [], ◌∷◌, leb, ◌==◌,
  All, any, any-append, ltb, ◌||◌, ◌&&◌, arith,
}
use jmdn_fast_sync.Common.Sort.{sort, any-sort, All-sort}
use jmdn_fast_sync.Common.Span.{span}
use jmdn_fast_sync.DataSync.Batches.{
  max_data_per_request as limit, make_data_batch_request, build_data_batches,
}
use jmdn_fast_sync.Tag.{RangeTag, Tag}
use jmdn_fast_sync.Tag.Covers.{covers, in_range}
use jmdn_fast_sync.Tag.Packing.{start as empty}
use jmdn_fast_sync.Tag.Packing.Laws.{
  blocks_in, tag_size, start-Packed, add_blocks-Packed, finish_lem, ranges_of, blocks_of,
  any_covers, any_covers_lem,
}
use jmdn_fast_sync.Wire.{Auth, DataSyncRequest}
use jmdn_fast_sync.DataSync.Batches.Rounds.{request_tag, WithinLimit, IsRange, listed}
use jmdn_fast_sync.DataSync.Batches.Loop.{split_ranges-Split}

abbrev pub request_ranges : List DataSyncRequest → List RangeTag
request_ranges = ranges_of limit request_tag WithinLimit

abbrev pub request_blocks : List DataSyncRequest → List ℕ
request_blocks = blocks_of limit request_tag WithinLimit

-- For a tag whose ranges are not empty and end below the greatest 64-bit number, and fuel above the
-- length of each range: `buildDataBatches` returns; the ranges of its requests list, in order and each
-- once, exactly the blocks of the tag's ranges sorted by their start; the requests' single block
-- numbers are the tag's, sorted; and each request asks for at most 30 blocks.
pub build_data_batches_lem :
    (fuel : ℕ) (tag : Tag) (version : ℕ) (auth : Option Auth)
    → All (λ r. IsRange r × (blocks_in r < fuel)) tag.range
    → (qs : List DataSyncRequest) × (build_data_batches fuel tag version auth ≡ some qs)
      × (listed (request_ranges qs) ≡ listed (sort (λ r. r.start) tag.range))
      × (request_blocks qs ≡ sort (λ n. n) tag.block_number)
      × All (λ q. tag_size q.tag ≤ limit) qs
unfolding build_data_batches
build_data_batches_lem fuel tag version auth v =
    let make = make_data_batch_request version auth in
    let k =
      split_ranges-Split version auth fuel (sort (λ r. r.start) tag.range) (empty limit make)
        (All-sort (λ r. r.start) (λ r. IsRange r × (blocks_in r < fuel)) tag.range v) (omega arith)
        (start-Packed limit request_tag WithinLimit make (λ t. refl)) in
    let packed =
      add_blocks-Packed limit request_tag WithinLimit make (λ t. refl) (omega arith) (omega arith)
        (λ t h. h) (sort (λ n. n) tag.block_number) k.result k.holds in
    let (rs, bs, fits) =
      finish_lem limit request_tag WithinLimit make (λ t. refl) (omega arith) (omega arith)
        (λ t h. h) _ packed in
    (_, rw (k.ends, build_data_batches), ap listed rs ∙ k.lists, bs, fits)

any-span : (n s b : ℕ) → any (λ k. k == b) (span s n) ≡ (leb s b && ltb b (s + n))
any-span zero s b = ground arith
any-span (suc n) s b = ground (arith, any-span n (s + 1) b)

any-listed : (rs : List RangeTag) (b : ℕ) → any (λ k. k == b) (listed rs) ≡ any (in_range b) rs
any-listed [] b = refl
any-listed (r ∷ rs) b = ground (
  arith,
  any-append (λ k. k == b) (span r.start (blocks_in r)) (listed rs),
  any-span (blocks_in r) r.start b,
  any-listed rs b,
)

-- For a tag whose ranges are not empty and end below the greatest 64-bit number, and fuel above the
-- length of each range: `buildDataBatches` returns, and some request of it asks for a block exactly
-- when the tag names the block.
pub covers-build_data_batches :
    (fuel : ℕ) (tag : Tag) (version : ℕ) (auth : Option Auth) (b : ℕ)
    → All (λ r. IsRange r × (blocks_in r < fuel)) tag.range
    → (qs : List DataSyncRequest) × (build_data_batches fuel tag version auth ≡ some qs)
      × (any_covers request_tag qs b ≡ covers tag b)
covers-build_data_batches fuel tag version auth b v =
    let (qs, e, rs, bs, _) = build_data_batches_lem fuel tag version auth v in
    (
      qs,
      e,
      any_covers_lem request_tag qs b
          ∙ ap₂ ◌||◌
              (sym (any-listed (request_ranges qs) b)
                ∙ ap (any (λ k. k == b)) rs
                ∙ any-listed (sort (λ r. r.start) tag.range) b
                ∙ any-sort (λ r. r.start) (in_range b) tag.range)
              (ap (any (λ k. k == b)) bs ∙ any-sort (λ n. n) (λ k. k == b) tag.block_number),
    )
