-- ===== src/Tag/Packing/Laws.antt =====
-- The invariant of the packing loops: what was packed so far, in order, and how much a request holds.
use jmdn_fast_sync.Common.{
  ℕ, ◌+◌, ◌-◌, ◌≤◌, ◌<◌, ◌≡◌, refl, ap, ◌∙◌, sym, ◌⊎◌, inl, inr, Bool, false, List, [], ◌∷◌, ◌++◌,
  append-nil, append_assoc, ◌&&◌, ◌||◌, u64_mod, add64, add64_lem, ltb, Bool-cases, length,
  length-append, flat_map, flat_map-append, any, any-append, ◌==◌, lt→ltb, All, All-append, arith,
}
use jmdn_fast_sync.Tag.{RangeTag, Tag, empty_tag, push_block}
use jmdn_fast_sync.Tag.Covers.{covers, in_range}
use jmdn_fast_sync.Tag.Packing.{Packing, start, flush, add_block, add_blocks, finish}

-- The number of blocks from `r.start` to `r.end`.
abbrev pub blocks_in : RangeTag → ℕ
blocks_in r = r.end + 1 - r.start

abbrev pub total : List RangeTag → ℕ
total [] = 0
total (r ∷ rs) = blocks_in r + total rs

-- The number of blocks that a tag asks for.
abbrev pub tag_size : Tag → ℕ
tag_size t = total t.range + length t.block_number

pub total-append : (rs ss : List RangeTag) → total (rs ++ ss) ≡ total rs + total ss
total-append [] ss = omega arith
total-append (r ∷ rs) ss = omega (arith, total-append rs ss)

ltb_zero : (n : ℕ) → n ≡ 0 → ltb 0 n ≡ false
ltb_zero n h = ground arith

module _ {ℓ} {Request : Type ℓ} (limit : ℕ) (tag_of : Request → Tag) (Fits : Tag → Type 0) where
  abbrev pub ranges_of : List Request → List RangeTag
  ranges_of = flat_map (λ q. (tag_of q).range)

  abbrev pub blocks_of : List Request → List ℕ
  blocks_of = flat_map (λ q. (tag_of q).block_number)

  -- `rs` and `bs` are packed, in order; the full requests hold tags that fit.
  pub record InOrder (p : Packing Request) (rs : List RangeTag) (bs : List ℕ) : Type ℓ where
    pub ranges : ranges_of p.batches ++ p.current.range ≡ rs
    pub blocks : blocks_of p.batches ++ p.current.block_number ≡ bs
    pub fitting : All (λ q. Fits (tag_of q)) p.batches

  -- Besides, the count is right and within the limit.
  pub record Packed (p : Packing Request) (rs : List RangeTag) (bs : List ℕ) : Type ℓ where
    pub order : InOrder p rs bs
    pub sized : tag_size p.current ≡ p.count
    pub bounded : p.count ≤ limit
    pub emptied : (0 < p.count) ⊎ (p.current ≡ empty_tag)

  module _ (make : Tag → Request) (tag_of-make : (t : Tag) → tag_of (make t) ≡ t) where
    pub start-Packed : Packed (start limit make) [] []
    start-Packed = record {
      order = record { ranges = refl; blocks = refl; fitting = tt };
      sized = refl;
      bounded = omega arith;
      emptied = inr refl;
    }

    ranges_of-push :
        (qs : List Request) (t : Tag) → ranges_of (qs ++ make t ∷ []) ≡ ranges_of qs ++ t.range
    ranges_of-push qs t =
        flat_map-append (λ q. (tag_of q).range) qs (make t ∷ [])
        ∙ ap (λ u. ranges_of qs ++ u) (append-nil _ ∙ ap (λ u. u.range) (tag_of-make t))

    blocks_of-push :
        (qs : List Request) (t : Tag)
        → blocks_of (qs ++ make t ∷ []) ≡ blocks_of qs ++ t.block_number
    blocks_of-push qs t =
        flat_map-append (λ q. (tag_of q).block_number) qs (make t ∷ [])
        ∙ ap (λ u. blocks_of qs ++ u) (append-nil _ ∙ ap (λ u. u.block_number) (tag_of-make t))

    -- A flush closes the current request and loses nothing.
    pub flush-Packed :
        (p : Packing Request) {rs : List RangeTag} {bs : List ℕ}
        → Fits p.current
        → InOrder p rs bs
        → Packed (flush limit make p) rs bs
    unfolding flush
    flush-Packed p f h = record {
      order = record {
        ranges = append-nil _ ∙ ranges_of-push p.batches p.current ∙ h.ranges;
        blocks = append-nil _ ∙ blocks_of-push p.batches p.current ∙ h.blocks;
        fitting =
            All-append (λ q. Fits (tag_of q)) p.batches (make p.current ∷ []) h.fitting
              (rw tag_of-make f, tt);
      };
      sized = refl;
      bounded = omega arith;
      emptied = inr refl;
    }

    module _ (room : 0 < limit) (word : limit + 1 < u64_mod)
        (small : (t : Tag) → tag_size t ≤ limit → Fits t) where
      push_block-Packed :
          (q : Packing Request) {rs : List RangeTag} {bs : List ℕ} (n : ℕ)
          → q.count < limit
          → Packed q rs bs
          → Packed
              (record q { current = push_block q.current n; count = add64 q.count 1 })
              rs
              (bs ++ n ∷ [])
      push_block-Packed q n free h =
          let e : add64 q.count 1 ≡ q.count + 1 = add64_lem q.count 1 (omega arith) in
          record {
            order = record {
              ranges = h.order.ranges;
              blocks =
                  sym (append_assoc (blocks_of q.batches) q.current.block_number (n ∷ []))
                  ∙ ap (λ u. u ++ n ∷ []) h.order.blocks;
              fitting = h.order.fitting;
            };
            sized = omega (arith, e, h.sized, length-append q.current.block_number (n ∷ []));
            bounded = omega (arith, e);
            emptied = inl (omega (arith, e));
          }

      pub add_block-Packed :
          (p : Packing Request) {rs : List RangeTag} {bs : List ℕ} (n : ℕ)
          → Packed p rs bs
          → Packed (add_block limit make p n) rs (bs ++ n ∷ [])
      unfolding add_block
      add_block-Packed p n h = elim (Bool-cases (ltb 0 p.count && ltb limit (add64 p.count 1))) [
        | inl full ↦ rw full (
            push_block-Packed (flush limit make p) n (unfold flush in room)
              (flush-Packed p (small p.current (omega (arith, h.sized, h.bounded))) h.order))
        | inr free ↦ rw free (push_block-Packed p n (fits free) h)
      ]
        where
          fits : (ltb 0 p.count && ltb limit (add64 p.count 1)) ≡ false → p.count < limit
          fits f = ground (arith, add64_lem p.count 1, h.bounded)

      pub add_blocks-Packed :
          (ns : List ℕ) (p : Packing Request) {rs : List RangeTag} {bs : List ℕ}
          → Packed p rs bs
          → Packed (add_blocks limit make p ns) rs (bs ++ ns)
      unfolding add_blocks
      add_blocks-Packed [] p h = rw append-nil h
      add_blocks-Packed (n ∷ ns) p {rs} {bs} h =
          rw (← append_assoc bs (n ∷ []) ns)
            (add_blocks-Packed ns (add_block limit make p n) (add_block-Packed p n h))

      -- The requests of a finished packing hold exactly what was packed, in order, and each fits.
      pub finish_lem :
          (p : Packing Request) {rs : List RangeTag} {bs : List ℕ}
          → Packed p rs bs
          → (ranges_of (finish limit make p) ≡ rs)
            × (blocks_of (finish limit make p) ≡ bs)
            × All (λ q. Fits (tag_of q)) (finish limit make p)
      unfolding finish
      finish_lem p h = elim h.emptied [
        | inl pos ↦
            let f = flush-Packed p (small p.current (omega (arith, h.sized, h.bounded))) h.order in
            rw (lt→ltb 0 p.count pos) (
              sym (append-nil _) ∙ f.order.ranges,
              sym (append-nil _) ∙ f.order.blocks,
              f.order.fitting,
            )
        | inr e ↦
            let z : p.count ≡ 0 = sym h.sized ∙ ap tag_size e in
            rw (ltb_zero p.count z) (
              sym (append-nil _)
                  ∙ ap (λ u. ranges_of p.batches ++ u.range) (sym e)
                  ∙ h.order.ranges,
              sym (append-nil _)
                  ∙ ap (λ u. blocks_of p.batches ++ u.block_number) (sym e)
                  ∙ h.order.blocks,
              h.order.fitting,
            )
      ]

-- The blocks that some request asks for.
abbrev pub any_covers {ℓ} : {Request : Type ℓ} → (Request → Tag) → List Request → ℕ → Bool
any_covers tag_of qs b = any (λ q. covers (tag_of q) b) qs

-- Requests that hold the ranges and the blocks of a tag in some order cover the tag's blocks.
pub any_covers_lem {ℓ} :
    {Request : Type ℓ} (tag_of : Request → Tag) (qs : List Request) (b : ℕ)
    → any_covers tag_of qs b ≡ (
        any (in_range b) (flat_map (λ q. (tag_of q).range) qs)
        || any (λ n. n == b) (flat_map (λ q. (tag_of q).block_number) qs))
any_covers_lem tag_of [] b = refl
any_covers_lem tag_of (q ∷ qs) b = ground (
  arith,
  any-append (in_range b) (tag_of q).range (flat_map (λ q. (tag_of q).range) qs),
  any-append (λ n. n == b) (tag_of q).block_number (flat_map (λ q. (tag_of q).block_number) qs),
  any_covers_lem tag_of qs b,
)
