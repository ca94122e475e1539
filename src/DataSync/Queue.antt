-- ===== src/DataSync/Queue.antt =====
-- `processDataQueue` of core/datasync/datasync.go: the results of the workers arrive in any order and are
-- written in the order of the batches. The results are the sequence in which they arrive; writing a
-- batch is `DataSync/Queue/Write`.
pub mod Waiting
pub mod Order
pub mod Fetch
pub mod Write
use jmdn_fast_sync.Common.{
  ℕ, zero, suc, ◌+◌, Bool, true, false, Option, none, some, List, [], ◌∷◌, length, ◌==◌,
  if◌then◌else◌,
}

-- `dataBatchResult`, with what a successful one carries.
pub record Arrival (Batch : Type 0) : Type 0 where
  pub batch_id : ℕ
  pub fetched : Option Batch

-- The result of a worker that fetched the batch of a number.
abbrev pub arrival : {Batch : Type 0} → (ℕ → Batch) → ℕ → Arrival Batch
arrival batch_of k = record { batch_id = k; fetched = some (batch_of k) }

-- The map `outOfOrderBatches`.
abbrev pub Buffered : Type 0 → Type 0
Buffered Batch = List (ℕ × Batch)

module _ {Batch : Type 0} where
  unfoldable pub find : ℕ → Buffered Batch → Option Batch
  find id [] = none
  find id ((k, b) ∷ m) = if k == id then some b else find id m

  unfoldable pub remove : ℕ → Buffered Batch → Buffered Batch
  remove id [] = []
  remove id ((k, b) ∷ m) = let rest = remove id m in if k == id then rest else (k, b) ∷ rest

  -- `outOfOrderBatches[id] = batch`
  abbrev pub put : ℕ → Batch → Buffered Batch → Buffered Batch
  put id b m = (id, b) ∷ remove id m

-- The collecting loop between two results, or after the return of an error.
pub data Progress (Batch State : Type 0) : Type 0 where
  collecting : ℕ → Buffered Batch → State → Progress Batch State
  stopped : State → Progress Batch State

-- What `processDataQueue` leaves: the state, and whether it returns no error.
abbrev pub returned : {Batch State : Type 0} → Progress Batch State → State × Bool
returned (collecting expected m s) = (s, true)
returned (stopped s) = (s, false)

-- `write` is processAndWriteBatch: the new state, and whether it returned no error.
module _ {Batch State : Type 0} (write : State → Batch → State × Bool) where
  -- The inner loop, which writes the batches that have been waited for.
  unfoldable pub drain : ℕ → ℕ → Buffered Batch → State → Progress Batch State
  unfolding find remove
  drain zero expected m s = collecting expected m s
  drain (suc fuel) expected m s = elim (find expected m) [
    | none ↦ collecting expected m s
    | some b ↦ elim (write s b).1 [
      | true ↦ drain fuel (expected + 1) (remove expected m) (write s b).0
      | false ↦ stopped (write s b).0
    ]
  ]

  unfoldable pub receive : Progress Batch State → Arrival Batch → Progress Batch State
  unfolding drain
  receive (stopped s) r = stopped s
  receive (collecting expected m s) r = elim r.fetched [
    | none ↦ stopped s
    | some b ↦
        if r.batch_id == expected
        then elim (write s b).1 [
          | true ↦ drain (suc (length m)) (expected + 1) m (write s b).0
          | false ↦ stopped (write s b).0
        ]
        else collecting expected (put r.batch_id b m) s
  ]

  -- The loop over `resultCh`.
  unfoldable pub collect : Progress Batch State → List (Arrival Batch) → Progress Batch State
  unfolding receive
  collect progress [] = progress
  collect progress (r ∷ rs) = collect (receive progress r) rs

  -- `processDataQueue`. The counter starts at 1.
  unfoldable pub process_data_queue : State → List (Arrival Batch) → State × Bool
  unfolding collect
  process_data_queue s rs = returned (collect (collecting 1 [] s) rs)
