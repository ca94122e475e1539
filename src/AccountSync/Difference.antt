-- ===== src/AccountSync/Difference.antt =====
-- ComputeAccountDiff of core/protocol/router/helper/accounts/accounts_tag.go: the nonces that the client
-- lacks are handed to the dispatcher in pages. The parents take turns, in any order; the children of
-- a batch are taken in the order of their slices. Only the nonces of accounts are read.
pub mod Complete
use jmdn_fast_sync.Common.{
  ℕ, zero, suc, ◌+◌, ◌*◌, ◌%◌, ◌≡◌, Bool, true, false, ◌&&◌, ◌||◌, not, Option, none, some, List,
  [], ◌∷◌, ◌++◌, length, take, drop, ltb, leb, ◌==◌, min, any, u64_mod, if◌then◌else◌,
}

abbrev pub nonce_page_size : ℕ
nonce_page_size = 3000

abbrev pub num_diff_parents : ℕ
num_diff_parents = 30

abbrev pub num_diff_children : ℕ
num_diff_children = 10

abbrev pub child_window : ℕ
child_window = 1000

abbrev pub full_sync_threshold_pct : ℕ
full_sync_threshold_pct = 6

-- The calls of the dispatcher. `wait_for_batch_start` stands with the test of the context before it;
-- false is an error.
pub record Sink : Type 1 where
  pub State : Type 0
  pub wait_for_batch_start : State → State × Bool
  pub enqueue_nonces : State → List ℕ → State × Bool

-- The nonces that the client's tree, given by its `Contains`, does not hold.
abbrev pub absent : (ℕ → Bool) → List ℕ → List ℕ
absent contains [] = []
absent contains (n ∷ nonces) =
    if not (contains n) then n ∷ absent contains nonces else absent contains nonces

-- The slices of the children that are left.
unfoldable pub children : (ℕ → Bool) → ℕ → List ℕ → List ℕ
children contains zero batch = []
children contains (suc left) batch =
    let rest = children contains left (drop child_window batch) in
    if length batch == 0 then [] else absent contains (take child_window batch) ++ rest

-- `processWithChildren`
unfoldable pub process_with_children : (ℕ → Bool) → List ℕ → List ℕ
unfolding children
process_with_children contains batch =
    children contains (min num_diff_children (length batch)) batch

-- The results of NextBatch, `none` for an error; there are no more after an empty batch.
abbrev pub Batches : Type 0
Batches = List (Option (List ℕ))

-- The producer of `diffWithGRO`: the batches it sends, and whether there is no error.
unfoldable pub produce : Batches → List (List ℕ) × Bool
produce [] = ([], true)
produce (none ∷ batches) = ([], false)
produce (some [] ∷ batches) = ([], true)
produce (some (n ∷ nonces) ∷ batches) =
    let (sent, fine) = produce batches in ((n ∷ nonces) ∷ sent, fine)

pub record Parent : Type 0 where
  pub local_nonces : List ℕ
  pub running : Bool

abbrev pub stopped : Parent
stopped = record { local_nonces = []; running = false }

abbrev pub starting : Parent
starting = record { local_nonces = []; running = true }

unfoldable pub parents : ℕ → List Parent
parents zero = []
parents (suc n) = starting ∷ parents n

-- The test for a full synchronisation, on uint64.
unfoldable pub is_full_sync : ℕ → ℕ → Bool
is_full_sync client_total server_total =
    ltb ((client_total * 100) % u64_mod) ((server_total * full_sync_threshold_pct) % u64_mod)

module _ (sink : Sink) where
  open sink use {State, wait_for_batch_start, enqueue_nonces}

  -- The loop over the full pages, with the nonces that are left; `none` for an error.
  unfoldable pub flush_pages : ℕ → State → List ℕ → State × Option (List ℕ)
  flush_pages zero s pending = (s, some pending)
  flush_pages (suc fuel) s pending =
      let (s', accepted) = enqueue_nonces s (take nonce_page_size pending) in
      let rest = flush_pages fuel s' (drop nonce_page_size pending) in
      if leb nonce_page_size (length pending)
      then (if accepted then rest else (s', none))
      else (s, some pending)

  -- The last page, which may be smaller.
  unfoldable pub flush_last : State → List ℕ → State × Bool
  flush_last s [] = (s, true)
  flush_last s (n ∷ pending) = enqueue_nonces s (n ∷ pending)

  -- The round of `collectAll` without another batch, and the last page.
  unfoldable pub end_collecting : State → List ℕ → State × Bool
  unfolding flush_last
  end_collecting s pending =
      let (s', ready) = wait_for_batch_start s in
      if ready then flush_last s' pending else (s', false)

  -- `collectAll`, from the nonces that wait; whether there is no error.
  unfoldable pub collect_all : State → List ℕ → Batches → State × Bool
  unfolding flush_pages end_collecting
  collect_all s pending [] = end_collecting s pending
  collect_all s pending (none ∷ batches) = let (s', ready) = wait_for_batch_start s in (s', false)
  collect_all s pending (some [] ∷ batches) = end_collecting s pending
  collect_all s pending (some (n ∷ nonces) ∷ batches) =
      let (s', ready) = wait_for_batch_start s in
      let all = pending ++ n ∷ nonces in
      let (s'', left) = flush_pages (length all) s' all in
      let rest = λ (l : List ℕ). collect_all s'' l batches in
      if ready then elim left [ none ↦ (s'', false) | some l ↦ rest l ] else (s', false)

  -- What the parents share: the dispatcher, the batches in the channel, and whether one has an error.
  pub record Shared : Type 0 where
    pub state : State
    pub queue : List (List ℕ)
    pub failed : Bool

  -- The part of a turn behind the gate: with a batch, or with the channel closed and empty.
  unfoldable pub pull : (ℕ → Bool) → Shared → List ℕ → List (List ℕ) → Shared × Parent
  unfolding flush_pages flush_last process_with_children
  pull contains sh local_nonces [] =
      let (s, accepted) = flush_last sh.state local_nonces in
      (record sh { state = s; failed = sh.failed || not accepted }, stopped)
  pull contains sh local_nonces (batch ∷ batches) =
      let all = local_nonces ++ process_with_children contains batch in
      let (s, left) = flush_pages (length all) sh.state all in
      elim left [
        | none ↦ (record { state = s; queue = batches; failed = true }, stopped)
        | some rest ↦ (
          record sh { state = s; queue = batches },
          record { local_nonces = rest; running = true },
        )
      ]

  -- One round of a parent's loop.
  unfoldable pub turn : (ℕ → Bool) → Shared → Parent → Shared × Parent
  unfolding pull flush_last
  turn contains sh p =
      let (s, ready) = wait_for_batch_start sh.state in
      if p.running
      then (if ready
          then pull contains (record sh { state = s }) p.local_nonces sh.queue
          else (record sh { state = (flush_last s p.local_nonces).0; failed = true }, stopped))
      else (sh, p)

  unfoldable pub turn_at : (ℕ → Bool) → ℕ → Shared → List Parent → Shared × List Parent
  unfolding turn
  turn_at contains i sh [] = (sh, [])
  turn_at contains zero sh (p ∷ ps) = let (sh', p') = turn contains sh p in (sh', p' ∷ ps)
  turn_at contains (suc i) sh (p ∷ ps) = let (sh', ps') = turn_at contains i sh ps in (sh', p ∷ ps')

  -- The parents take turns by a schedule.
  unfoldable pub run_turns : (ℕ → Bool) → List ℕ → Shared → List Parent → Shared × List Parent
  unfolding turn_at
  run_turns contains [] sh ps = (sh, ps)
  run_turns contains (i ∷ schedule) sh ps =
      let (sh', ps') = turn_at contains i sh ps in run_turns contains schedule sh' ps'

  -- `diffWithGRO` until its parents have stopped, and the parents.
  unfoldable pub diff_with_gro :
      (ℕ → Bool) → List ℕ → State → ℕ → Batches → State × Bool × List Parent
  unfolding run_turns produce parents
  diff_with_gro contains schedule s server_total batches =
      let (queue, fine) = produce batches in
      let actual_parents = min num_diff_parents server_total in
      let (sh, ps) =
        run_turns contains schedule (record { state = s; queue = queue; failed = false })
          (parents actual_parents) in
      if actual_parents == 0 then (s, true, []) else (sh.state, fine && not sh.failed, ps)

  -- `ComputeAccountDiff` up to CloseInput; `server_total` is the result of TotalAccounts.
  unfoldable pub compute_account_diff :
      (ℕ → Bool) → List ℕ → State → Option ℕ → ℕ → Batches → State × Bool × List Parent
  unfolding is_full_sync collect_all diff_with_gro
  compute_account_diff contains schedule s none client_total batches = (s, false, [])
  compute_account_diff contains schedule s (some server_total) client_total batches =
      let (s', fine) = collect_all s [] batches in
      if is_full_sync client_total server_total
      then (s', fine, [])
      else diff_with_gro contains schedule s server_total batches
