-- ===== src/Tag/Divide.antt =====
-- `DivideTags` of core/protocol/router/helper/helper.go: a range of blocks is cut into ranges of 1500.
use jmdn_fast_sync.Common.{
  ℕ, zero, suc, ◌+◌, ◌-◌, ◌≤◌, ◌<◌, ◌≡◌, refl, ap, sym, ◌∙◌, true, false, Option, none, some, List,
  [], ◌∷◌, ◌++◌, u64_mod, add64, sub64, add64_lem, sub64_lem, ltb, leb, if◌then◌else◌, Bool-cases,
  inl, inr, flat_map, append-nil, ◌⊎◌, All, arith,
}
use jmdn_fast_sync.Common.Span.{span, span-append}
use jmdn_fast_sync.HeaderSync.Batches.{max_headers_per_request as chunk_size}
use jmdn_fast_sync.Tag.{RangeTag, Tag}
use jmdn_fast_sync.Tag.Packing.Laws.{blocks_in}

-- The chunk that starts at `i`.
unfoldable pub chunk_at : ℕ → ℕ → RangeTag
chunk_at i end =
    let chunk_end = sub64 (add64 i chunk_size) 1 in
    record { start = i; end = if ltb end chunk_end then end else chunk_end }

-- `for i := start; i <= end; i += chunkSize`; `none` means that the fuel ran out.
unfoldable pub divide : ℕ → ℕ → ℕ → Option (List RangeTag)
unfolding chunk_at
divide zero i end = none
divide (suc fuel) i end = elim (leb i end) [
  | false ↦ some []
  | true ↦ elim (divide fuel (add64 i chunk_size) end) [
    | none ↦ none
    | some rest ↦ some (chunk_at i end ∷ rest)
  ]
]

unfoldable pub divide_tags : ℕ → ℕ → ℕ → Option Tag
unfolding divide
divide_tags fuel start end = elim (divide fuel start end) [
  | none ↦ none
  | some ranges ↦ some (record { block_number = []; range = ranges })
]

-- The blocks of ranges, one by one.
abbrev pub blocks_of : List RangeTag → List ℕ
blocks_of = flat_map (λ r. span r.start (blocks_in r))

record Divided (i end : ℕ) (o : Option (List RangeTag)) : Type 0 where
  ranges : List RangeTag
  ends : o ≡ some ranges
  blocks : blocks_of ranges ≡ span i (end + 1 - i)
  small : All (λ r. blocks_in r ≤ chunk_size) ranges

-- The end of a chunk, for numbers that do not wrap.
chunk_at-end :
    (i end : ℕ)
    → i ≤ end
    → end + chunk_size < u64_mod
    → (chunk_at i end).end ≡ (if ltb end (i + chunk_size - 1) then end else i + chunk_size - 1)
unfolding chunk_at
chunk_at-end i end le small =
    let a = add64_lem i chunk_size (omega arith) in
    let e : sub64 (add64 i chunk_size) 1 ≡ i + chunk_size - 1 =
      omega (arith, a, sub64_lem (add64 i chunk_size) 1 (omega (arith, a)) (omega (arith, a))) in
    rw e refl

span-join : (m n i j k : ℕ) → k ≡ m + n → (n ≡ 0) ⊎ (i + m ≡ j) → span i m ++ span j n ≡ span i k
span-join m n i j k e (inl z) =
    let same : m ≡ k = omega arith in
    ap (λ u. span i m ++ span j u) z ∙ append-nil (span i m) ∙ ap (span i) same
span-join m n i j k e (inr meet) =
    ap (λ u. span i m ++ span u n) (sym meet) ∙ sym (span-append m n i k e)

divide-Divided :
    (fuel i end : ℕ)
    → end + chunk_size < u64_mod
    → end + 1 - i < fuel
    → i < u64_mod
    → Divided i end (divide fuel i end)
unfolding divide
divide-Divided zero i end small enough fits = absurd (omega arith)
divide-Divided (suc fuel) i end small enough fits = elim (Bool-cases (leb i end)) [
  | inr past ↦
      rw (past, divide)
        (record {
          ranges = [];
          ends = refl;
          blocks = let z : end + 1 - i ≡ 0 = ground arith in ap (span i) (sym z);
          small = tt;
        })
  | inl on ↦
      let le : i ≤ end = ground arith in
      let a = add64_lem i chunk_size (omega arith) in
      let ih =
        divide-Divided fuel (add64 i chunk_size) end small (omega (arith, a)) (omega (arith, a)) in
      let e = chunk_at-end i end le small in
      let next = add64 i chunk_size in
      let size = blocks_in (chunk_at i end) in
      let joins : (end + 1 - next ≡ 0) ⊎ (i + size ≡ next) = joined i end le next a e in
      let adds : end + 1 - i ≡ size + (end + 1 - next) = ground (arith, e, a) in
      rw (on, divide)
        (rw (ih.ends, divide)
          (record {
            ranges = chunk_at i end ∷ ih.ranges;
            ends = refl;
            blocks =
                ap (λ u. span i size ++ u) ih.blocks
                ∙ span-join size (end + 1 - next) i next (end + 1 - i) adds joins;
            small = (ground (arith, e), ih.small);
          }))
]
  where
    joined :
        (i end : ℕ)
        → i ≤ end
        → (next : ℕ) → next ≡ i + chunk_size
        → (chunk_at i end).end ≡ (if ltb end (i + chunk_size - 1) then end else i + chunk_size - 1)
        → (end + 1 - next ≡ 0) ⊎ (i + blocks_in (chunk_at i end) ≡ next)
    joined i end le next a e = elim (Bool-cases (ltb end (i + chunk_size - 1))) [
      | inl short ↦ inl (ground arith)
      | inr full ↦ inr (ground (arith, e))
    ]

-- For a range below the greatest 64-bit number less 1500, and fuel above its length: `DivideTags`
-- returns a tag of ranges only, whose ranges list exactly the blocks from `start` to `end`, in order and
-- each once, and hold at most 1500 blocks each.
pub divide_tags_lem :
    (fuel start end : ℕ)
    → end + chunk_size < u64_mod
    → start < u64_mod
    → end + 1 - start < fuel
    → (tag : Tag) × (divide_tags fuel start end ≡ some tag)
      × (blocks_of tag.range ≡ span start (end + 1 - start))
      × (tag.block_number ≡ [])
      × All (λ r. blocks_in r ≤ chunk_size) tag.range
unfolding divide_tags
divide_tags_lem fuel start end small fits enough =
    let d = divide-Divided fuel start end small enough fits in
    (
      record { block_number = []; range = d.ranges },
      rw (d.ends, divide_tags) refl,
      d.blocks,
      refl,
      d.small,
    )
