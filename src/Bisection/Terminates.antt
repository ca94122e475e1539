-- ===== src/Bisection/Terminates.antt =====
-- The loop of `dataBisect` ends: every layer holds items of one depth, one more than the layer before,
-- and the layer threshold is 6.
use jmdn_fast_sync.Common.{
  ℕ, zero, suc, ◌+◌, ◌≤◌, ◌≡◌, refl, Option, none, some, List, [], ◌∷◌, ◌++◌, map, u64_mod, leb,
  Bool-cases, Option-cases, inl, inr, All, All-append, arith, ◌-◌,
}
use jmdn_fast_sync.Bisection.{
  WorkItem, Diff, Trees, Outcome, tagged, failed, out_of_fuel, layer_threshold, triage, refine,
  child, bisect, seed, data_bisect, request_sub_tree, build_local_subtree,
  calculate_sub_block_merge, get_latest_block_number, tag_item,
}
use jmdn_fast_sync.Bisection.Layers.{All-triage}
use jmdn_fast_sync.Tag.{Tagging, new_tagging}

abbrev IsAt : ℕ → WorkItem → Type 0
IsAt k item = item.layer ≡ k

-- The fuel was enough.
abbrev pub HasEnded : Outcome → Type 0
HasEnded (tagged tag) = Unit
HasEnded failed = Unit
HasEnded out_of_fuel = ⊥

children-IsAt :
    (k : ℕ) (item : WorkItem) (ds : List Diff)
    → item.layer ≡ k
    → All (IsAt (k + 1)) (map (child item) ds)
children-IsAt k item [] h = tt
children-IsAt k item (d ∷ ds) h = (omega arith, children-IsAt k item ds h)

seed-IsAt : (ds : List Diff) → All (IsAt 0) (seed ds)
seed-IsAt [] = tt
seed-IsAt (d ∷ ds) = (refl, seed-IsAt ds)

module _ (trees : Trees) where
  abbrev NextAt : ℕ → Option (Tagging × List WorkItem) → Type 0
  NextAt k none = Unit
  NextAt k (some (t, items)) = All (IsAt k) items

  refine-NextAt :
      (k : ℕ) (t : Tagging) (next items : List WorkItem)
      → All (IsAt k) items
      → All (IsAt (k + 1)) next
      → NextAt (k + 1) (refine trees t next items)
  unfolding refine
  refine-NextAt k t next [] h n = n
  refine-NextAt k t next (item ∷ items) h n =
      elim (Option-cases (request_sub_tree trees item.start item.count merge)) [
        | inl unavailable ↦
            rw (unavailable, refine) (refine-NextAt k (tag_item t item) next items h.1 n)
        | inr (target, sent) ↦
            elim (Option-cases (build_local_subtree trees item.start item.count merge)) [
              | inl unbuilt ↦ rw (sent, refine) (rw (unbuilt, refine) tt)
              | inr (mine, built) ↦ elim (Option-cases (trees.tree_diff mine target)) [
                | inl failure ↦ rw (sent, refine) (rw (built, refine) (rw (failure, refine) tt))
                | inr (ds, found) ↦
                    rw (sent, refine)
                      (rw (built, refine)
                        (rw (found, refine)
                          (refine-NextAt k t (next ++ map (child item) ds) items h.1 (
                            All-append (IsAt (k + 1)) next (map (child item) ds) n
                              (children-IsAt k item ds h.0)))))
              ]
            ]
      ]
    where
      merge : ℕ
      merge = calculate_sub_block_merge item.count

  bisect-HasEnded :
      (fuel k peer : ℕ) (t : Tagging) (items : List WorkItem)
      → All (IsAt k) items
      → k ≤ layer_threshold
      → layer_threshold + 1 ≤ fuel + k
      → HasEnded (bisect trees fuel peer t items)
  unfolding bisect
  bisect-HasEnded zero k peer t items h low enough = absurd (omega arith)
  bisect-HasEnded (suc fuel) k peer t [] h low enough = tt
  bisect-HasEnded (suc fuel) k peer t (item ∷ items) h low enough =
      elim (Bool-cases (leb layer_threshold item.layer)) [
        | inl deep ↦ rw (deep, bisect) tt
        | inr on ↦
            rw (on, bisect)
              (step (refine trees now [] todo) refl
                (refine-NextAt k now [] todo (All-triage trees (IsAt k) peer t (item ∷ items) h) tt)
                (ground (arith, h.0))
                (λ t' next n deeper.
                  bisect-HasEnded fuel (k + 1) peer t' next n deeper (omega arith)))
      ]
    where
      now : Tagging
      now = (triage trees peer t (item ∷ items)).0

      todo : List WorkItem
      todo = (triage trees peer t (item ∷ items)).1

      step :
          (o : Option (Tagging × List WorkItem))
          → refine trees now [] todo ≡ o
          → NextAt (k + 1) o
          → k + 1 ≤ layer_threshold
          → ((t' : Tagging) (next : List WorkItem)
              → All (IsAt (k + 1)) next
              → k + 1 ≤ layer_threshold
              → HasEnded (bisect trees fuel peer t' next))
          → HasEnded (elim (refine trees now [] todo) [
            | none ↦ failed
            | some (t', next) ↦ bisect trees fuel peer t' next
          ])
      step none e n deeper ih = rw e tt
      step (some (t', next)) e n deeper ih = rw e (ih t' next n deeper)

  -- With fuel for seven rounds `dataBisect` ends, whatever the trees and the peer answer.
  pub data_bisect-HasEnded :
      (mine target : trees.Builder) → HasEnded (data_bisect trees (layer_threshold + 1) mine target)
  unfolding data_bisect
  data_bisect-HasEnded mine target = elim (Option-cases (trees.finalize mine)) [
    | inl e ↦ rw (e, data_bisect) tt
    | inr (x, e) ↦ elim (Option-cases (trees.finalize target)) [
      | inl e' ↦ rw (e, data_bisect) (rw (e', data_bisect) tt)
      | inr (y, e') ↦ elim (Bool-cases (trees.same_hash x y)) [
        | inl equal ↦ rw (e, data_bisect) (rw (e', data_bisect) (rw (equal, data_bisect) tt))
        | inr unequal ↦ elim (Option-cases (trees.tree_diff mine target)) [
          | inl f ↦
              rw (e, data_bisect)
                (rw (e', data_bisect) (rw (unequal, data_bisect) (rw (f, data_bisect) tt)))
          | inr (ds, f) ↦ elim (Option-cases (get_latest_block_number trees target)) [
            | inl g ↦
                rw (e, data_bisect)
                  (rw (e', data_bisect)
                    (rw (unequal, data_bisect)
                      (rw (f, data_bisect) (rw (g, data_bisect) (seeded ds (u64_mod - 1))))))
            | inr (height, g) ↦
                rw (e, data_bisect)
                  (rw (e', data_bisect)
                    (rw (unequal, data_bisect)
                      (rw (f, data_bisect) (rw (g, data_bisect) (seeded ds height)))))
          ]
        ]
      ]
    ]
  ]
    where
      seeded :
          (ds : List Diff) (peer : ℕ)
          → HasEnded (bisect trees (layer_threshold + 1) peer new_tagging (seed ds))
      seeded ds peer =
          bisect-HasEnded (layer_threshold + 1) 0 peer new_tagging (seed ds) (seed-IsAt ds)
            (omega arith) (omega arith)
