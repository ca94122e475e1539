-- ===== src/DataSync/Batches/Rounds.antt =====
-- One round of the inner loop of `buildDataBatches`.
use jmdn_fast_sync.Common.{
  ℕ, ◌+◌, ◌-◌, ◌≤◌, ◌<◌, ◌≡◌, refl, sym, ap, ◌∙◌, inl, inr, Option, List, [], ◌∷◌, ◌++◌,
  append_assoc, u64_mod, add64, sub64, add64_lem, sub64_lem, leb, leb→le, leb-false, ◌==◌,
  if◌then◌else◌, Bool-cases, flat_map, arith,
}
use jmdn_fast_sync.Common.Span.{span}
use jmdn_fast_sync.DataSync.Batches.{
  max_data_per_request as limit, make_data_batch_request, take_chunk, chunk,
}
use jmdn_fast_sync.Tag.{RangeTag, Tag}
use jmdn_fast_sync.Tag.Packing.{Packing, flush}
use jmdn_fast_sync.Tag.Packing.Laws.{
  blocks_in, total-append, tag_size, Packed, flush-Packed, ranges_of,
}
use jmdn_fast_sync.Wire.{Auth, DataSyncRequest}

abbrev pub request_tag : DataSyncRequest → Tag
request_tag q = q.tag

abbrev pub WithinLimit : Tag → Type 0
WithinLimit t = tag_size t ≤ limit

-- A range of blocks that exist: not empty, and below the greatest `uint64`.
pub record IsRange (r : RangeTag) : Type 0 where
  pub ordered : r.start ≤ r.end
  pub small : r.end + 1 < u64_mod

-- The blocks of ranges, one by one.
abbrev pub listed : List RangeTag → List ℕ
listed = flat_map (λ r. span r.start (blocks_in r))

module _ (version : ℕ) (auth : Option Auth) where
  abbrev pub Holds : Packing DataSyncRequest → List RangeTag → List ℕ → Type 0
  Holds = Packed limit request_tag WithinLimit

  -- Between two rounds a request is not full.
  abbrev pub Open : Packing DataSyncRequest → Type 0
  Open p = p.count < limit

  take_chunk-Holds :
      (p : Packing DataSyncRequest) {rs : List RangeTag} {bs : List ℕ} (r : RangeTag) (size : ℕ)
      → 0 < size
      → size ≡ blocks_in r
      → p.count + size ≤ limit
      → Holds p rs bs
      → Holds (take_chunk version auth p r size) (rs ++ r ∷ []) bs
  take_chunk-Holds p r size pos e fit h =
      let n : add64 p.count size ≡ p.count + size = add64_lem p.count size (omega arith) in
      record {
        order = record {
          ranges =
              sym (
                append_assoc (ranges_of limit request_tag WithinLimit p.batches) p.current.range
                  (r ∷ []))
              ∙ ap (λ u. u ++ r ∷ []) h.order.ranges;
          blocks = h.order.blocks;
          fitting = h.order.fitting;
        };
        sized = omega (arith, n, h.sized, total-append p.current.range (r ∷ []));
        bounded = omega (arith, n);
        emptied = inl (omega (arith, n));
      }

  flush-Holds :
      (p : Packing DataSyncRequest) {rs : List RangeTag} {bs : List ℕ}
      → Holds p rs bs
      → Holds (flush limit (make_data_batch_request version auth) p) rs bs
  flush-Holds p h =
      flush-Packed limit request_tag WithinLimit (make_data_batch_request version auth) (λ t. refl)
        p (omega (arith, h.sized, h.bounded)) h.order

  -- A request is closed as soon as it is full.
  close-Holds :
      (p : Packing DataSyncRequest) {rs : List RangeTag} {bs : List ℕ}
      → Holds p rs bs
      → let q =
          if p.count == limit then flush limit (make_data_batch_request version auth) p else p in
        Holds q rs bs × Open q
  unfolding flush
  close-Holds p h = elim (Bool-cases (p.count == limit)) [
    | inl full ↦ rw full (flush-Holds p h, omega arith)
    | inr free ↦ rw free (h, ground (arith, h.bounded))
  ]

  -- What one round, with the result `c`, does: it takes a chunk `[s, t]` of the range, with room
  -- left afterwards, and goes on behind it.
  pub record Round (c : Packing DataSyncRequest × ℕ) (s e : ℕ) (rs : List RangeTag) (bs : List ℕ)
      : Type 0 where
    pub t : ℕ
    pub lower : s ≤ t
    pub upper : t ≤ e
    pub next : c.1 ≡ t + 1
    pub holds : Holds c.0 (rs ++ record { start = s; end = t } ∷ []) bs
    pub room : Open c.0

  pub chunk-Round :
      (p : Packing DataSyncRequest) {rs : List RangeTag} {bs : List ℕ} (s e : ℕ)
      → s ≤ e
      → e + 1 < u64_mod
      → Open p
      → Holds p rs bs
      → Round (chunk version auth p s e) s e rs bs
  unfolding chunk
  chunk-Round p {rs} {bs} s e le small o h = elim (Bool-cases (leb pieces capacity)) [
    | inl all ↦ rw all (
        let taken =
          take_chunk-Holds p (record { start = s; end = e }) pieces (omega (arith, pieces_eq))
            (omega (arith, pieces_eq)) (omega (arith, pieces_eq, capacity_eq, leb→le _ _ all)) h in
        record {
          t = e;
          lower = le;
          upper = omega arith;
          next = add64_lem e 1 small;
          holds =
              (close-Holds (take_chunk version auth p (record { start = s; end = e }) pieces)
                taken).0;
          room =
              (close-Holds (take_chunk version auth p (record { start = s; end = e }) pieces)
                taken).1;
        })
    | inr part ↦ rw part (
        let below : capacity < pieces = leb-false _ _ part in
        let taken =
          take_chunk-Holds p (record { start = s; end = chunk_end }) capacity
            (omega (arith, capacity_eq)) (omega (arith, end_eq below, capacity_eq))
            (omega (arith, capacity_eq)) h in
        record {
          t = chunk_end;
          lower = omega (arith, end_eq below, capacity_eq);
          upper = omega (arith, end_eq below, pieces_eq);
          next = add64_lem chunk_end 1 (omega (arith, end_eq below, pieces_eq));
          holds =
              flush-Holds
                (take_chunk version auth p (record { start = s; end = chunk_end }) capacity) taken;
          room = unfold flush in omega arith;
        })
  ]
    where
      capacity : ℕ
      capacity = sub64 limit p.count

      pieces : ℕ
      pieces = add64 (sub64 e s) 1

      chunk_end : ℕ
      chunk_end = sub64 (add64 s capacity) 1

      capacity_eq : capacity ≡ limit - p.count
      capacity_eq = sub64_lem limit p.count (omega arith) (omega arith)

      pieces_eq : pieces ≡ e + 1 - s
      pieces_eq =
          let d = sub64_lem e s le (omega arith) in
          omega (arith, d, add64_lem (sub64 e s) 1 (omega (arith, d)))

      end_eq : capacity < pieces → chunk_end + 1 ≡ s + capacity
      end_eq below =
          let a = add64_lem s capacity (omega (arith, pieces_eq)) in
          omega (
            arith,
            capacity_eq,
            a,
            sub64_lem (add64 s capacity) 1 (omega (arith, a, capacity_eq))
                (omega (arith, a, pieces_eq)),
          )
