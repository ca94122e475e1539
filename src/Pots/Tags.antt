-- ===== src/Pots/Tags.antt =====
-- `GenerateTagsFromMap` of core/protocol/router/helper/pots/pots_tags.go: the keys of a map as a tag,
-- runs of consecutive block numbers as ranges.
use jmdn_fast_sync.Common.{
  ℕ, ◌+◌, ◌≤◌, ◌≡◌, refl, ◌∙◌, ap, Bool, true, false, ◌&&◌, ◌||◌, List, [], ◌∷◌, map, add64, ltb,
  leb, ◌==◌, if◌then◌else◌, Bool-cases, inl, inr, any, All, arith,
}
use jmdn_fast_sync.Common.Sort.{sort, IsSorted, sort-IsSorted, any-sort}
use jmdn_fast_sync.Pots.BlockMap.{BlockMap, has_key}
use jmdn_fast_sync.Tag.{Tag, Tagging, empty_tag, new_tagging, tag_block, tag_range}
use jmdn_fast_sync.Tag.Covers.{covers, covers-tag_block, covers-tag_range}

-- A range for at least two blocks, else a single block.
emit : Tagging → ℕ → ℕ → Tagging
emit tagger start end = if ltb start end then tag_range tagger start end else tag_block tagger start

-- The two nested loops: the run `[start, last]` is being extended, and the list is what lies behind it.
tag_runs : Tagging → ℕ → ℕ → List ℕ → Tagging
tag_runs tagger start last [] = emit tagger start last
tag_runs tagger start last (n ∷ ns) =
    let consecutive = n == add64 last 1 in
    tag_runs (if consecutive then tagger else emit tagger start last)
      (if consecutive then start else n) n ns

tag_sorted : List ℕ → Tag
tag_sorted [] = empty_tag
tag_sorted (n ∷ ns) = (tag_runs new_tagging n n ns).tag

unfoldable pub generate_tags : BlockMap → Tag
unfolding tag_sorted tag_runs emit
generate_tags blocks = tag_sorted (sort (λ n. n) (map (λ e. e.0) blocks))

covers-emit :
    (t : Tagging) (s e b : ℕ)
    → s ≤ e
    → covers (emit t s e).tag b ≡ (covers t.tag b || (leb s b && leb b e))
unfolding emit
covers-emit t s e b h = elim (Bool-cases (ltb s e)) [
  | inl two ↦ rw two (covers-tag_range t s e b)
  | inr one ↦ rw one (covers-tag_block t s b ∙ ground arith)
]

-- One round of the loops, for the test's value.
tag_runs_step :
    (t : Tagging) (s l n : ℕ) (ns : List ℕ) (c : Bool)
    → (n == add64 l 1) ≡ c
    → tag_runs t s l (n ∷ ns) ≡ tag_runs (if c then t else emit t s l) (if c then s else n) n ns
unfolding tag_runs
tag_runs_step t s l n ns c h =
    ap (λ u. tag_runs (if u then t else emit t s l) (if u then s else n) n ns) h

covers-tag_runs :
    (ns : List ℕ) (t : Tagging) (s l b : ℕ)
    → s ≤ l
    → All (λ n. l ≤ n) ns
    → IsSorted (λ n. n) ns
    → covers (tag_runs t s l ns).tag b
      ≡ (covers t.tag b || ((leb s b && leb b l) || any (λ n. n == b) ns))
unfolding tag_runs add64
covers-tag_runs [] t s l b h a i = covers-emit t s l b h ∙ ground arith
covers-tag_runs (n ∷ ns) t s l b h a i = elim (Bool-cases (n == add64 l 1)) [
  | inl next ↦
      let e : n ≡ l + 1 = ground (arith, a.0) in
      ap (λ u. covers u.tag b) (tag_runs_step t s l n ns true next)
      ∙ covers-tag_runs ns t s n b (omega arith) i.0 i.1
      ∙ ground (arith, e)
  | inr gap ↦
      ap (λ u. covers u.tag b) (tag_runs_step t s l n ns false gap)
      ∙ covers-tag_runs ns (emit t s l) n n b (omega arith) i.0 i.1
      ∙ ground (arith, covers-emit t s l b h)
]

any-keys : (m : BlockMap) (b : ℕ) → any (λ n. n == b) (map (λ e. e.0) m) ≡ has_key b m
any-keys [] b = refl
any-keys ((k, v) ∷ m) b = ap (λ u. (k == b) || u) (any-keys m b)

covers-tag_sorted :
    (ns : List ℕ) (b : ℕ) → IsSorted (λ n. n) ns → covers (tag_sorted ns) b ≡ any (λ n. n == b) ns
unfolding tag_sorted
covers-tag_sorted [] b i = refl
covers-tag_sorted (n ∷ ns) b i =
    covers-tag_runs ns new_tagging n n b (omega arith) i.0 i.1 ∙ ground arith

-- The tag covers exactly the keys of the map.
pub covers-generate_tags : (m : BlockMap) (b : ℕ) → covers (generate_tags m) b ≡ has_key b m
unfolding generate_tags
covers-generate_tags m b =
    let keys = map (λ e. e.0) m in
    covers-tag_sorted (sort (λ n. n) keys) b (sort-IsSorted (λ n. n) keys)
    ∙ any-sort (λ n. n) (λ n. n == b) keys
    ∙ any-keys m b
