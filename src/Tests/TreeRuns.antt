-- ===== src/Tests/TreeRuns.antt =====
-- The bisection of two trees of 20 blocks that differ in block 15: the first comparison reports the whole
-- range, the comparison of the sub-trees a part of it.
use jmdn_fast_sync.Common.{
  ℕ, ◌+◌, ◌≡◌, refl, ◌⊎◌, true, false, some, List, [], ◌∷◌, any, All, ◌==◌, if◌then◌else◌, arith,
}
use jmdn_fast_sync.Bisection.{
  Diff, Trees, tagged, failed, inner, last, layer_threshold, data_bisect,
}
use jmdn_fast_sync.Bisection.Layers.{IsBounded, diff_holds}
use jmdn_fast_sync.Bisection.Terminates.{HasEnded, data_bisect-HasEnded}
use jmdn_fast_sync.Bisection.Complete.{Reports, data_bisect-covers}
use jmdn_fast_sync.Tag.{Tag}
use jmdn_fast_sync.Tag.Covers.{covers}
use jmdn_fast_sync.Wire.{accepted}

-- A tree is a number: 0 and 2 are the trees of the two nodes, 1 is a sub-tree.
abbrev pub reported : ℕ → List Diff
reported tree =
    (if tree == 0 then record { start = 0; count = 20 } else record { start = 12; count = 5 }) ∷ []

abbrev pub two_nodes : Trees
two_nodes = record {
  Builder = ℕ;
  Snapshot = ℕ;
  Hash = ℕ;
  same_hash = λ x y. x == y;
  finalize = λ tree. some tree;
  root_node = λ tree. some (some (inner 0 20 (last 10 10)));
  tree_diff = λ mine target. some (reported mine);
  from_snapshot = λ snapshot. some snapshot;
  send = λ first last merge count. some (record { ack = some accepted; snapshot = some 1 });
  generate = λ first last merge count. some 1;
}

abbrev pub Differs : ℕ → Type 0
Differs b = b ≡ 15

reported-IsBounded :
    (tree : ℕ) (ds : List Diff)
    → some (reported tree) ≡ some ds
    → All (λ d. IsBounded d.start d.count) ds
reported-IsBounded tree ds e = let same : reported tree ≡ ds = cc in rw (← same) (ground arith, tt)

pub reported-holds :
    (tree b : ℕ) (ds : List Diff)
    → some (reported tree) ≡ some ds
    → Differs b
    → any (diff_holds b) ds ≡ true
reported-holds tree b ds e d = let same : reported tree ≡ ds = cc in rw (← same) (ground arith)

pub two_nodes-Reports : Reports two_nodes Differs
two_nodes-Reports = record {
  bounded = λ x y ds e. reported-IsBounded x ds e;
  sub_trees = λ s c mine target ds b sent built e here d. reported-holds mine b ds e d;
}

unequal : (x y : ℕ) → some 0 ≡ some x → some 2 ≡ some y → (x == y) ≡ false
unequal x y p q = let p' : 0 ≡ x = cc in let q' : 2 ≡ y = cc in ground arith

data_bisect-covers_example :
    ((tag : Tag) × (data_bisect two_nodes (layer_threshold + 1) 0 2 ≡ tagged tag)
      × (covers tag 15 ≡ true))
    ⊎ (data_bisect two_nodes (layer_threshold + 1) 0 2 ≡ failed)
data_bisect-covers_example =
    data_bisect-covers two_nodes Differs two_nodes-Reports 15 refl 0 2 unequal
      (λ ds e. reported-holds 0 15 ds e refl)

data_bisect-HasEnded_example : HasEnded (data_bisect two_nodes (layer_threshold + 1) 0 2)
data_bisect-HasEnded_example = data_bisect-HasEnded two_nodes 0 2
