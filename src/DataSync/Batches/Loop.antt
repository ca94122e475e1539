-- ===== src/DataSync/Batches/Loop.antt =====
-- The loops of `buildDataBatches` over the ranges and over a range's chunks: they end.
use jmdn_fast_sync.Common.{
  ℕ, zero, suc, ◌+◌, ◌-◌, ◌≤◌, ◌<◌, ◌≡◌, refl, sym, ap, ◌∙◌, inl, inr, Option, some, List, [], ◌∷◌,
  ◌++◌, append-nil, append_assoc, u64_mod, leb, leb→le, leb-false, Bool-cases, All, flat_map-append,
  arith,
}
use jmdn_fast_sync.Common.Span.{span, span-append}
use jmdn_fast_sync.DataSync.Batches.{chunk, split_range, split_ranges}
use jmdn_fast_sync.Tag.{RangeTag}
use jmdn_fast_sync.Tag.Packing.{Packing}
use jmdn_fast_sync.Tag.Packing.Laws.{blocks_in}
use jmdn_fast_sync.Wire.{Auth, DataSyncRequest}
use jmdn_fast_sync.DataSync.Batches.Rounds.{IsRange, listed, Holds, Open, Round, chunk-Round}

module _ (version : ℕ) (auth : Option Auth) where
  -- The inner loop, with the result `o`: it ends, and the chunks that it took list the blocks `ns`.
  pub record Split (o : Option (Packing DataSyncRequest)) (ns : List ℕ) (rs : List RangeTag)
      (bs : List ℕ) : Type 0 where
    pub result : Packing DataSyncRequest
    pub chunks : List RangeTag
    pub ends : o ≡ some result
    pub lists : listed chunks ≡ ns
    pub holds : Holds version auth result (rs ++ chunks) bs
    pub room : Open version auth result

  split_range-Split :
      (fuel : ℕ) (p : Packing DataSyncRequest) {rs : List RangeTag} {bs : List ℕ} (s e : ℕ)
      → s ≤ e + 1
      → e + 1 < u64_mod
      → e + 1 - s < fuel
      → Open version auth p
      → Holds version auth p rs bs
      → Split (split_range version auth fuel p s e) (span s (e + 1 - s)) rs bs
  unfolding split_range
  split_range-Split zero p s e le small enough o h = absurd (omega arith)
  split_range-Split (suc fuel) p {rs} {bs} s e le small enough o h = elim (Bool-cases (leb s e)) [
    | inl more ↦
        let r = chunk-Round version auth p s e (leb→le s e more) small o h in
        rw (more, split_range)
          (then_chunk r (
            split_range-Split fuel (chunk version auth p s e).0 (chunk version auth p s e).1 e
              (omega (arith, r.next, r.upper)) small (omega (arith, r.next, r.lower, r.upper))
              r.room r.holds))
    | inr done ↦
        rw (done, split_range)
          (record {
            result = p;
            chunks = [];
            ends = refl;
            lists = let z : 0 ≡ e + 1 - s = omega (arith, leb-false s e done) in ap (span s) z;
            holds = rw append-nil h;
            room = o;
          })
  ]
    where
      then_chunk :
          {o' : Option (Packing DataSyncRequest)}
          (r : Round version auth (chunk version auth p s e) s e rs bs)
          → Split o'
              (span (chunk version auth p s e).1 (e + 1 - (chunk version auth p s e).1))
              (rs ++ record { start = s; end = r.t } ∷ [])
              bs
          → Split o' (span s (e + 1 - s)) rs bs
      then_chunk r k = record {
        result = k.result;
        chunks = record { start = s; end = r.t } ∷ k.chunks;
        ends = k.ends;
        lists =
            let m : s + (r.t + 1 - s) ≡ (chunk version auth p s e).1 =
              omega (arith, r.next, r.lower) in
            ap (λ u. span s (r.t + 1 - s) ++ u)
              (k.lists ∙ ap (λ j. span j (e + 1 - (chunk version auth p s e).1)) (sym m))
            ∙ sym (
                span-append (r.t + 1 - s) (e + 1 - (chunk version auth p s e).1) s (e + 1 - s)
                  (omega (arith, r.next, r.lower, r.upper)));
        holds = rw (← append_assoc rs (record { start = s; end = r.t } ∷ []) k.chunks) k.holds;
        room = k.room;
      }

  pub split_ranges-Split :
      (fuel : ℕ) (ranges : List RangeTag) (p : Packing DataSyncRequest) {rs : List RangeTag}
      {bs : List ℕ}
      → All (λ r. IsRange r × (blocks_in r < fuel)) ranges
      → Open version auth p
      → Holds version auth p rs bs
      → Split (split_ranges version auth fuel p ranges) (listed ranges) rs bs
  unfolding split_ranges
  split_ranges-Split fuel [] p v o h = record {
    result = p;
    chunks = [];
    ends = refl;
    lists = refl;
    holds = rw append-nil h;
    room = o;
  }
  split_ranges-Split fuel (r ∷ ranges) p {rs} {bs} v o h =
      let (valid, enough) = v.0 in
      let k =
        split_range-Split fuel p r.start r.end (omega (arith, valid.ordered)) valid.small enough o
          h in
      let ks = split_ranges-Split fuel ranges k.result v.1 k.room k.holds in
      rw (k.ends, split_ranges)
        (record {
          result = ks.result;
          chunks = k.chunks ++ ks.chunks;
          ends = ks.ends;
          lists =
              flat_map-append (λ r. span r.start (blocks_in r)) k.chunks ks.chunks
              ∙ ap (λ u. u ++ listed ks.chunks) k.lists
              ∙ ap (λ u. span r.start (blocks_in r) ++ u) ks.lists;
          holds = rw (← append_assoc rs k.chunks ks.chunks) ks.holds;
          room = ks.room;
        })
