-- ===== src/Bisection/Complete.antt =====
-- No mismatch is missed: every block in which the two nodes differ is tagged.
use jmdn_fast_sync.Common.{
  ◌⊎◌, ℕ, zero, suc, ◌+◌, ◌≡◌, refl, ap, true, false, ◌&&◌, ◌||◌, Option, none, some, List, [], ◌∷◌,
  ◌++◌, map, ◌-◌, u64_mod, ltb, leb, Bool-cases, Option-cases, inl, inr, any, any-append, All,
  All-append, arith,
}
use jmdn_fast_sync.Bisection.{
  WorkItem, Diff, Trees, Outcome, tagged, failed, out_of_fuel, layer_threshold, triage, refine,
  child, bisect, seed, data_bisect, request_sub_tree, build_local_subtree,
  calculate_sub_block_merge, get_latest_block_number, tag_item,
}
use jmdn_fast_sync.Bisection.Layers.{
  holds, diff_holds, IsBounded, Bounded, accounted, accounted-tag_item, accounted-tag_all,
  accounted-triage, All-triage,
}
use jmdn_fast_sync.Bisection.Terminates.{HasEnded, data_bisect-HasEnded}
use jmdn_fast_sync.Tag.{Tag, Tagging, new_tagging}
use jmdn_fast_sync.Tag.Covers.{covers}

-- What the bisection relies on: the comparison of two trees reports ranges of 64-bit blocks, and the
-- comparison of a local sub-tree with the peer's sub-tree of one range reports each block of the range
-- in which the nodes differ.
pub record Reports (trees : Trees) (Differs : ℕ → Type 0) : Type 0 where
  pub bounded :
      (x y : trees.Builder) (ds : List Diff)
      → trees.tree_diff x y ≡ some ds
      → All (λ d. IsBounded d.start d.count) ds
  pub sub_trees :
      (s c : ℕ) (mine target : trees.Builder) (ds : List Diff) (b : ℕ)
      → request_sub_tree trees s c (calculate_sub_block_merge c) ≡ some target
      → build_local_subtree trees s c (calculate_sub_block_merge c) ≡ some mine
      → trees.tree_diff mine target ≡ some ds
      → (leb s b && ltb b (s + c)) ≡ true
      → Differs b
      → any (diff_holds b) ds ≡ true

any-children :
    (b : ℕ) (item : WorkItem) (ds : List Diff)
    → any (holds b) (map (child item) ds) ≡ any (diff_holds b) ds
any-children b item [] = refl
any-children b item (d ∷ ds) = ap (λ u. diff_holds b d || u) (any-children b item ds)

any-seed : (b : ℕ) (ds : List Diff) → any (holds b) (seed ds) ≡ any (diff_holds b) ds
any-seed b [] = refl
any-seed b (d ∷ ds) = ap (λ u. diff_holds b d || u) (any-seed b ds)

All-children :
    (item : WorkItem) (ds : List Diff)
    → All (λ d. IsBounded d.start d.count) ds
    → All Bounded (map (child item) ds)
All-children item [] h = tt
All-children item (d ∷ ds) h = (h.0, All-children item ds h.1)

All-seed : (ds : List Diff) → All (λ d. IsBounded d.start d.count) ds → All Bounded (seed ds)
All-seed [] h = tt
All-seed (d ∷ ds) h = (h.0, All-seed ds h.1)

module _ (trees : Trees) (Differs : ℕ → Type 0) (r : Reports trees Differs) (b : ℕ)
    (differs : Differs b) where
  -- An error, or a state that accounts for the block.
  abbrev Accounts : Option (Tagging × List WorkItem) → Type 0
  Accounts none = Unit
  Accounts (some (t, items)) = (accounted b t items ≡ true) × All Bounded items

  refine-Accounts :
      (t : Tagging) (next items : List WorkItem)
      → All Bounded items
      → All Bounded next
      → (accounted b t items || any (holds b) next) ≡ true
      → Accounts (refine trees t next items)
  unfolding refine
  refine-Accounts t next [] h k a = (ground arith, k)
  refine-Accounts t next (item ∷ items) h k a =
      elim (Option-cases (request_sub_tree trees item.start item.count merge)) [
        | inl unavailable ↦
            rw (unavailable, refine)
              (refine-Accounts (tag_item t item) next items h.1 k
                (ground (arith, accounted-tag_item b t item items h.0)))
        | inr (target, sent) ↦
            elim (Option-cases (build_local_subtree trees item.start item.count merge)) [
              | inl unbuilt ↦ rw (sent, refine) (rw (unbuilt, refine) tt)
              | inr (mine, built) ↦ elim (Option-cases (trees.tree_diff mine target)) [
                | inl failure ↦ rw (sent, refine) (rw (built, refine) (rw (failure, refine) tt))
                | inr (ds, found) ↦
                    rw (sent, refine)
                      (rw (built, refine)
                        (rw (found, refine)
                          (refine-Accounts t (next ++ map (child item) ds) items h.1
                            (All-append Bounded next (map (child item) ds) k
                              (All-children item ds (r.bounded mine target ds found)))
                            (ground (
                              arith,
                              any-append (holds b) next (map (child item) ds),
                              any-children b item ds,
                              reported mine target ds sent built found,
                            )))))
              ]
            ]
      ]
    where
      merge : ℕ
      merge = calculate_sub_block_merge item.count

      reported :
          (mine target : trees.Builder) (ds : List Diff)
          → request_sub_tree trees item.start item.count merge ≡ some target
          → build_local_subtree trees item.start item.count merge ≡ some mine
          → trees.tree_diff mine target ≡ some ds
          → holds b item ≡ true
          → any (diff_holds b) ds ≡ true
      reported mine target ds sent built found here =
          r.sub_trees item.start item.count mine target ds b sent built found here differs

  -- The block is in the tag, if there is one.
  abbrev Tags : Outcome → Type 0
  Tags (tagged tag) = covers tag b ≡ true
  Tags failed = Unit
  Tags out_of_fuel = Unit

  bisect-Tags :
      (fuel peer : ℕ) (t : Tagging) (items : List WorkItem)
      → All Bounded items
      → accounted b t items ≡ true
      → Tags (bisect trees fuel peer t items)
  unfolding bisect
  bisect-Tags zero peer t items h a = tt
  bisect-Tags (suc fuel) peer t [] h a = ground arith
  bisect-Tags (suc fuel) peer t (item ∷ items) h a =
      elim (Bool-cases (leb layer_threshold item.layer)) [
        | inl deep ↦ rw (deep, bisect) (accounted-tag_all trees b t (item ∷ items) h a)
        | inr on ↦
            rw (on, bisect)
              (step (refine trees now [] todo) refl
                (refine-Accounts now [] todo (All-triage trees Bounded peer t (item ∷ items) h) tt
                  (ground (arith, accounted-triage trees b peer t (item ∷ items) h a)))
                (λ t' next. bisect-Tags fuel peer t' next))
      ]
    where
      now : Tagging
      now = (triage trees peer t (item ∷ items)).0

      todo : List WorkItem
      todo = (triage trees peer t (item ∷ items)).1

      step :
          (o : Option (Tagging × List WorkItem))
          → refine trees now [] todo ≡ o
          → Accounts o
          → ((t' : Tagging) (next : List WorkItem)
              → All Bounded next
              → accounted b t' next ≡ true
              → Tags (bisect trees fuel peer t' next))
          → Tags (elim (refine trees now [] todo) [
            | none ↦ failed
            | some (t'', next) ↦ bisect trees fuel peer t'' next
          ])
      step none e k ih = rw e tt
      step (some (t', next)) e k ih = rw e (ih t' next k.1 k.0)

  -- For roots of unequal hash, and a first comparison that reports the block.
  pub data_bisect-Tags :
      (fuel : ℕ) (mine target : trees.Builder)
      → ((x y : trees.Hash)
          → trees.finalize mine ≡ some x
          → trees.finalize target ≡ some y
          → trees.same_hash x y ≡ false)
      → ((ds : List Diff) → trees.tree_diff mine target ≡ some ds → any (diff_holds b) ds ≡ true)
      → Tags (data_bisect trees fuel mine target)
  unfolding data_bisect
  data_bisect-Tags fuel mine target unequal reported = elim (Option-cases (trees.finalize mine)) [
    | inl e ↦ rw (e, data_bisect) tt
    | inr (x, e) ↦ elim (Option-cases (trees.finalize target)) [
      | inl e' ↦ rw (e, data_bisect) (rw (e', data_bisect) tt)
      | inr (y, e') ↦ elim (Option-cases (trees.tree_diff mine target)) [
        | inl f ↦
            rw (e, data_bisect)
              (rw (e', data_bisect) (rw (unequal x y e e', data_bisect) (rw (f, data_bisect) tt)))
        | inr (ds, f) ↦ elim (Option-cases (get_latest_block_number trees target)) [
          | inl g ↦
              rw (e, data_bisect)
                (rw (e', data_bisect)
                  (rw (unequal x y e e', data_bisect)
                    (rw (f, data_bisect) (rw (g, data_bisect) (seeded ds f (u64_mod - 1))))))
          | inr (height, g) ↦
              rw (e, data_bisect)
                (rw (e', data_bisect)
                  (rw (unequal x y e e', data_bisect)
                    (rw (f, data_bisect) (rw (g, data_bisect) (seeded ds f height)))))
        ]
      ]
    ]
  ]
    where
      seeded :
          (ds : List Diff)
          → trees.tree_diff mine target ≡ some ds
          → (peer : ℕ) → Tags (bisect trees fuel peer new_tagging (seed ds))
      seeded ds f peer =
          bisect-Tags fuel peer new_tagging (seed ds) (All-seed ds (r.bounded mine target ds f))
            (ground (arith, any-seed b ds, reported ds f))

  -- Let the nodes differ in the block `b`, let the roots of the two trees have unequal hashes, and let
  -- the first comparison and, as `Reports` says, each later one report `b`. With fuel for seven rounds
  -- `dataBisect` either fails or returns a tag that covers `b`.
  pub data_bisect-covers :
      (mine target : trees.Builder)
      → ((x y : trees.Hash)
          → trees.finalize mine ≡ some x
          → trees.finalize target ≡ some y
          → trees.same_hash x y ≡ false)
      → ((ds : List Diff) → trees.tree_diff mine target ≡ some ds → any (diff_holds b) ds ≡ true)
      → ((tag : Tag) × (data_bisect trees (layer_threshold + 1) mine target ≡ tagged tag)
          × (covers tag b ≡ true))
        ⊎ (data_bisect trees (layer_threshold + 1) mine target ≡ failed)
  data_bisect-covers mine target unequal reported =
      decide (data_bisect trees (layer_threshold + 1) mine target)
        (data_bisect-HasEnded trees mine target)
        (data_bisect-Tags (layer_threshold + 1) mine target unequal reported)
    where
      decide :
          (o : Outcome)
          → HasEnded o
          → Tags o
          → ((tag : Tag) × (o ≡ tagged tag) × (covers tag b ≡ true)) ⊎ (o ≡ failed)
      decide (tagged tag) ended covered = inl (tag, refl, covered)
      decide failed ended covered = inr refl
      decide out_of_fuel ended covered = absurd ended
