-- ===== src/Tests/DifferenceRuns.antt =====
-- A server with three accounts in two batches, and a client that lacks two of them.
use jmdn_fast_sync.Common.{ℕ, ◌==◌, ◌≡◌, refl, Bool, true, some, List, [], ◌∷◌, ◌++◌}
use jmdn_fast_sync.AccountSync.Difference.{Sink, Batches, compute_account_diff}

-- A dispatcher that takes every page.
abbrev taking : Sink
taking = record {
  State = List (List ℕ);
  wait_for_batch_start = λ pages. (pages, true);
  enqueue_nonces = λ pages page. (pages ++ page ∷ [], true);
}

abbrev two_batches : Batches
two_batches = some (1 ∷ 2 ∷ []) ∷ some (3 ∷ []) ∷ []

abbrev has_first : ℕ → Bool
has_first n = n == 1

abbrev turns : List ℕ
turns = 1 ∷ 0 ∷ 0 ∷ 1 ∷ 2 ∷ []

pages_of_diff :
    (compute_account_diff taking has_first turns [] (some 3) 1 two_batches).0
    ≡ (3 ∷ []) ∷ (2 ∷ []) ∷ []
unfolding compute_account_diff
pages_of_diff = refl
