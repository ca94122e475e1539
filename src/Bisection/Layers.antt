-- ===== src/Bisection/Layers.antt =====
-- One layer of the bisection loses no block: what was tagged or still to be compared is so afterwards,
-- if the tree comparison reports every block in which the two nodes differ.
use jmdn_fast_sync.Common.{
  ℕ, ◌+◌, ◌-◌, ◌≤◌, ◌<◌, ◌≡◌, Bool, true, ◌&&◌, ◌||◌, List, [], ◌∷◌, u64_mod, add64, sub64, ltb,
  leb, if◌then◌else◌, Bool-cases, inl, inr, any, All, arith,
}
use jmdn_fast_sync.Bisection.{
  WorkItem, Diff, Trees, leaf_threshold, end_inclusive, tag_item, triage, tag_all,
}
use jmdn_fast_sync.Tag.{Tagging}
use jmdn_fast_sync.Tag.Covers.{covers, covers-tag_range}

abbrev pub holds : ℕ → WorkItem → Bool
holds b item = leb item.start b && ltb b (item.start + item.count)

abbrev pub diff_holds : ℕ → Diff → Bool
diff_holds b d = leb d.start b && ltb b (d.start + d.count)

-- A range of 64-bit block numbers.
abbrev pub IsBounded : ℕ → ℕ → Type 0
IsBounded start count = start + count ≤ u64_mod

abbrev pub Bounded : WorkItem → Type 0
Bounded item = IsBounded item.start item.count

-- The block is tagged, or lies in a range that is still to be compared.
abbrev pub accounted : ℕ → Tagging → List WorkItem → Bool
accounted b t items = covers t.tag b || any (holds b) items

end_inclusive_lem : (s c : ℕ) → IsBounded s c → 0 < c → end_inclusive s c ≡ s + c - 1
unfolding end_inclusive add64 sub64
end_inclusive_lem s c h pos = omega arith

pub accounted-tag_item :
    (b : ℕ) (t : Tagging) (item : WorkItem) (items : List WorkItem)
    → Bounded item
    → accounted b t (item ∷ items) ≡ true
    → accounted b (tag_item t item) items ≡ true
unfolding tag_item
accounted-tag_item b t item items h a = ground (
  arith,
  covers-tag_range t item.start (end_inclusive item.start item.count) b,
  end_inclusive_lem item.start item.count h,
)

module _ (trees : Trees) where
  open trees use {Builder, tree_diff}

  pub accounted-tag_all :
      (b : ℕ) (t : Tagging) (items : List WorkItem)
      → All Bounded items
      → accounted b t items ≡ true
      → covers (tag_all trees t items).tag b ≡ true
  unfolding tag_all
  accounted-tag_all b t [] h a = ground arith
  accounted-tag_all b t (item ∷ items) h a =
      accounted-tag_all b (tag_item t item) items h.1 (accounted-tag_item b t item items h.0 a)

  module _ {κ} (P : WorkItem → Type κ) where
    pub All-triage :
        (peer : ℕ) (t : Tagging) (items : List WorkItem)
        → All P items
        → All P (triage trees peer t items).1
    unfolding triage
    All-triage peer t [] h = tt
    All-triage peer t (item ∷ items) h =
        elim (Bool-cases (if leb item.count leaf_threshold then true else ltb peer item.start)) [
          | inl now ↦ rw now (All-triage peer (tag_item t item) items h.1)
          | inr later ↦ rw later (h.0, All-triage peer t items h.1)
        ]

  pub accounted-triage :
      (b peer : ℕ) (t : Tagging) (items : List WorkItem)
      → All Bounded items
      → accounted b t items ≡ true
      → accounted b (triage trees peer t items).0 (triage trees peer t items).1 ≡ true
  unfolding triage
  accounted-triage b peer t [] h a = a
  accounted-triage b peer t (item ∷ items) h a =
      elim (Bool-cases (if leb item.count leaf_threshold then true else ltb peer item.start)) [
        | inl now ↦ rw now (
            accounted-triage b peer (tag_item t item) items h.1
              (accounted-tag_item b t item items h.0 a))
        | inr later ↦ rw later (elim (Bool-cases (holds b item)) [
          | inl here ↦ ground arith
          | inr there ↦ ground (arith, accounted-triage b peer t items h.1)
        ])
      ]
