-- ===== src/HeaderSync/Batches/Laws.antt =====
-- What `buildBatches` asks for: every tagged block, in order, in requests of bounded size.
use jmdn_fast_sync.Common.{
  ℕ, ◌+◌, ◌^◌, ◌≤◌, ◌<◌, ◌≡◌, refl, sym, ap, ◌∙◌, ◌⊎◌, inl, inr, Option, List, [], ◌∷◌, map, ◌++◌,
  ◌&&◌, true, false, append-nil, append_assoc, add64, sub64, add64_lem, sub64_lem, ltb, leb,
  leb-false, if◌then◌else◌, Bool-cases, All, arith,
}
use jmdn_fast_sync.Common.Sort.{sort, any-sort, All-sort}
use jmdn_fast_sync.HeaderSync.Batches.{
  max_headers_per_request as limit, make_batch_request, range_size, add_range, add_ranges,
  build_batches,
}
use jmdn_fast_sync.Tag.{RangeTag, Tag, empty_tag, push_range}
use jmdn_fast_sync.Tag.Covers.{covers}
use jmdn_fast_sync.Tag.Packing.{Packing, flush, start, finish, add_blocks}
use jmdn_fast_sync.Tag.Packing.Laws.{
  blocks_in, total-append, tag_size, InOrder, Packed, start-Packed, flush-Packed, add_blocks-Packed,
  finish_lem, ranges_of, blocks_of, any_covers, any_covers_lem,
}
use jmdn_fast_sync.Wire.{Auth, HeaderSyncRequest}

-- A range of blocks that exist: not empty, and with numbers below 2^63.
pub record IsRange (r : RangeTag) : Type 0 where
  pub ordered : r.start ≤ r.end
  pub small : r.end < 2 ^ 63

abbrev pub request_tag : HeaderSyncRequest → Tag
request_tag q = q.tag

-- A request holds at most 1500 blocks, unless it is one single range.
abbrev pub WithinLimit : Tag → Type 0
WithinLimit t =
    (tag_size t ≤ limit) ⊎ ((r : RangeTag) × (t ≡ record { block_number = []; range = r ∷ [] }))

range_size_lem : (r : RangeTag) → IsRange r → range_size r ≡ blocks_in r
unfolding range_size
range_size_lem r v = omega (
  arith,
  sub64_lem r.end r.start v.ordered (omega arith),
  add64_lem (sub64 r.end r.start) 1
      (omega (arith, sub64_lem r.end r.start v.ordered (omega arith))),
)

module _ (auth : Option Auth) where
  abbrev Holds : Packing HeaderSyncRequest → List RangeTag → List ℕ → Type 0
  Holds = Packed limit request_tag WithinLimit

  abbrev Ordered : Packing HeaderSyncRequest → List RangeTag → List ℕ → Type 0
  Ordered = InOrder limit request_tag WithinLimit

  flush-Holds :
      (p : Packing HeaderSyncRequest) {rs : List RangeTag} {bs : List ℕ}
      → WithinLimit p.current
      → Ordered p rs bs
      → Holds (flush limit (make_batch_request auth) p) rs bs
  flush-Holds = flush-Packed limit request_tag WithinLimit (make_batch_request auth) (λ t. refl)

  -- The request that is being filled, with one more range.
  abbrev extended : Packing HeaderSyncRequest → RangeTag → Packing HeaderSyncRequest
  extended q r = record q { current = push_range q.current r; count = add64 q.count (range_size r) }

  count-extended :
      (q : Packing HeaderSyncRequest) (r : RangeTag)
      → IsRange r
      → q.count ≤ limit
      → (extended q r).count ≡ q.count + blocks_in r
  count-extended q r v h =
      let e = range_size_lem r v in rw e (add64_lem q.count (blocks_in r) (omega (arith, v.small)))

  -- What a round adds to a request with room for it, before the request is closed if it is full.
  extend-Holds :
      (q : Packing HeaderSyncRequest) {rs : List RangeTag} {bs : List ℕ} (r : RangeTag)
      → IsRange r
      → (q.current ≡ empty_tag) ⊎ (q.count + blocks_in r ≤ limit)
      → Holds q rs bs
      → Holds
          (if leb limit (extended q r).count
            then flush limit (make_batch_request auth) (extended q r)
            else extended q r)
          (rs ++ r ∷ [])
          bs
  extend-Holds q {rs} {bs} r v fit h = elim (Bool-cases (leb limit (extended q r).count)) [
    | inl full ↦ rw full (flush-Holds (extended q r) (within fit) ordered)
    | inr free ↦ rw free (record {
      order = ordered;
      sized = size;
      bounded = omega (arith, leb-false _ _ free);
      emptied = inl (omega (arith, count, v.ordered));
    })
  ]
    where
      count : (extended q r).count ≡ q.count + blocks_in r
      count = count-extended q r v h.bounded

      size : tag_size (push_range q.current r) ≡ (extended q r).count
      size = omega (arith, count, h.sized, total-append q.current.range (r ∷ []))

      ordered : Ordered (extended q r) (rs ++ r ∷ []) bs
      ordered = record {
        ranges =
            sym (
              append_assoc (ranges_of limit request_tag WithinLimit q.batches) q.current.range
                (r ∷ []))
            ∙ ap (λ u. u ++ r ∷ []) h.order.ranges;
        blocks = h.order.blocks;
        fitting = h.order.fitting;
      }

      within :
          (q.current ≡ empty_tag) ⊎ (q.count + blocks_in r ≤ limit)
          → WithinLimit (push_range q.current r)
      within (inl e) = inr (r, ap (λ t. push_range t r) e)
      within (inr k) = inl (omega (arith, count, size))

  add_range-Holds :
      (p : Packing HeaderSyncRequest) {rs : List RangeTag} {bs : List ℕ} (r : RangeTag)
      → IsRange r
      → Holds p rs bs
      → Holds (add_range auth p r) (rs ++ r ∷ []) bs
  unfolding add_range
  add_range-Holds p r v h =
      elim (Bool-cases (ltb 0 p.count && ltb limit (add64 p.count (range_size r)))) [
        | inl full ↦ rw full (
            extend-Holds (flush limit (make_batch_request auth) p) r v (inl (unfold flush in refl))
              (flush-Holds p (inl (omega (arith, h.sized, h.bounded))) h.order))
        | inr free ↦ rw free (extend-Holds p r v (fits free h.emptied) h)
      ]
    where
      fits :
          (ltb 0 p.count && ltb limit (add64 p.count (range_size r))) ≡ false
          → (0 < p.count) ⊎ (p.current ≡ empty_tag)
          → (p.current ≡ empty_tag) ⊎ (p.count + blocks_in r ≤ limit)
      fits f (inr e) = inl e
      fits f (inl pos) = inr (ground (arith, count-extended p r v h.bounded))

  add_ranges-Holds :
      (ns : List RangeTag) (p : Packing HeaderSyncRequest) {rs : List RangeTag} {bs : List ℕ}
      → All IsRange ns
      → Holds p rs bs
      → Holds (add_ranges auth p ns) (rs ++ ns) bs
  unfolding add_ranges
  add_ranges-Holds [] p v h = rw append-nil h
  add_ranges-Holds (r ∷ ns) p {rs} v h =
      rw (← append_assoc rs (r ∷ []) ns)
        (add_ranges-Holds ns (add_range auth p r) v.1 (add_range-Holds p r v.0 h))

abbrev pub request_ranges : List HeaderSyncRequest → List RangeTag
request_ranges = ranges_of limit request_tag WithinLimit

abbrev pub request_blocks : List HeaderSyncRequest → List ℕ
request_blocks = blocks_of limit request_tag WithinLimit

-- For a tag whose ranges are not empty and lie below 2^63: the requests that `buildBatches` returns
-- hold, in order, exactly the tag's ranges sorted by their start and then its block numbers sorted,
-- each once; and each request asks for at most 1500 blocks or for one single range.
pub build_batches_lem :
    (tag : Tag) (auth : Option Auth)
    → All IsRange tag.range
    → (request_ranges (build_batches tag auth) ≡ sort (λ r. r.start) tag.range)
      × (request_blocks (build_batches tag auth) ≡ sort (λ n. n) tag.block_number)
      × All (λ q. WithinLimit q.tag) (build_batches tag auth)
unfolding build_batches
build_batches_lem tag auth v =
    let make = make_batch_request auth in
    let ranged =
      add_ranges-Holds auth (sort (λ r. r.start) tag.range) (start limit make)
        (All-sort (λ r. r.start) IsRange tag.range v)
        (start-Packed limit request_tag WithinLimit make (λ t. refl)) in
    let packed =
      add_blocks-Packed limit request_tag WithinLimit make (λ t. refl) (omega arith) (omega arith)
        (λ t h. inl h) (sort (λ n. n) tag.block_number) _ ranged in
    finish_lem limit request_tag WithinLimit make (λ t. refl) (omega arith) (omega arith)
      (λ t h. inl h) _ packed

-- For a tag whose ranges are not empty and lie below 2^63, some request of `buildBatches` asks for a
-- block exactly when the tag names it.
pub covers-build_batches :
    (tag : Tag) (auth : Option Auth) (b : ℕ)
    → All IsRange tag.range
    → any_covers request_tag (build_batches tag auth) b ≡ covers tag b
covers-build_batches tag auth b v =
    let (rs, bs, _) = build_batches_lem tag auth v in
    any_covers_lem request_tag (build_batches tag auth) b ∙ rw (rs, bs, any-sort, any-sort)

-- A tag of one range, not empty and below 2^63, of more than 1500 blocks is one request, for as many
-- blocks as the range has.
pub build_batches-oversized :
    (r : RangeTag) (auth : Option Auth)
    → IsRange r
    → limit < blocks_in r
    → (map (λ q. tag_size q.tag) (build_batches (record { block_number = []; range = r ∷ [] }) auth)
        ≡ blocks_in r ∷ [])
unfolding build_batches add_range add_ranges flush finish sort add_blocks
build_batches-oversized r auth v big =
    let e = range_size_lem r v in
    let n : add64 0 (range_size r) ≡ blocks_in r =
      omega (arith, e, add64_lem 0 (range_size r) (omega (arith, e, v.small))) in
    let full : leb limit (add64 0 (range_size r)) ≡ true = rw n (ground arith) in
    rw full (ap (λ k. k ∷ []) (omega arith))
