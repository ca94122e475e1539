-- ===== src/AccountSync/Difference/Complete/Turns.antt =====
-- The two ways through the accounts of the server: all of them, and those that the client lacks, whose
-- parents take turns in any order.
use jmdn_fast_sync.Common.{
  ℕ, zero, suc, ◌+◌, ◌*◌, ◌≡◌, ◌≤◌, refl, ap, ◌∙◌, Bool, true, false, none, some, List, [], ◌∷◌,
  ◌++◌, length, total, total-append, Bool-cases, Option-cases, inl, inr, arith, All, if◌then◌else◌,
}
use jmdn_fast_sync.AccountSync.Difference.{
  Sink, Batches, num_diff_children, child_window, absent, process_with_children, flush_pages,
  flush_last, end_collecting, collect_all, produce, Shared, Parent, pull, turn, turn_at,
}
use jmdn_fast_sync.AccountSync.Difference.Complete.{
  IsFaithful, handed, handed-wait, flush_pages-handed, flush_last-handed, process_with_children_lem,
}

abbrev pub IsSmall : List (List ℕ) → Type 0
IsSmall queue = All (λ batch. length batch ≤ num_diff_children * child_window) queue

module _ (sink : Sink) (faithful : IsFaithful sink) (w : ℕ → ℕ) where
  open sink use {State, wait_for_batch_start}

  end_collecting-handed :
      (s : State) (pending : List ℕ)
      → (end_collecting sink s pending).1 ≡ true
      → handed sink faithful w (end_collecting sink s pending).0
        ≡ handed sink faithful w s + total w pending
  unfolding end_collecting
  end_collecting-handed s pending h = elim (Bool-cases (wait_for_batch_start s).1) [
    | inr stopped_here ↦ cc (rw stopped_here at h)
    | inl ready ↦ rw ready (
        flush_last-handed sink faithful w (wait_for_batch_start s).0 pending (rw ready at h)
        ∙ ap (λ k. k + total w pending) (handed-wait sink faithful w s))
  ]

  -- When collectAll ends without an error, it has handed over every nonce of the batches.
  pub collect_all-handed :
      (s : State) (pending : List ℕ) (batches : Batches)
      → (collect_all sink s pending batches).1 ≡ true
      → handed sink faithful w (collect_all sink s pending batches).0
        ≡ handed sink faithful w s + total w pending + total (total w) (produce batches).0
  unfolding collect_all produce
  collect_all-handed s pending [] h = omega (arith, end_collecting-handed s pending h)
  collect_all-handed s pending (none ∷ batches) h = cc
  collect_all-handed s pending (some [] ∷ batches) h =
      omega (arith, end_collecting-handed s pending h)
  collect_all-handed s pending (some (n ∷ nonces) ∷ batches) h =
      let all = pending ++ n ∷ nonces in
      let (s', ready) = wait_for_batch_start s in
      let (s'', left) = flush_pages sink (length all) s' all in
      elim (Bool-cases ready) [
        | inr cancelled ↦ cc (rw (cancelled, collect_all) at h)
        | inl ready_now ↦ elim (Option-cases left) [
          | inl broken ↦ cc (rw broken at (rw (ready_now, collect_all) at h))
          | inr (rest, flushed) ↦
              rw (ready_now, collect_all)
                (rw flushed (
                  omega (
                    arith,
                    collect_all-handed s'' rest batches
                        (rw flushed at (rw (ready_now, collect_all) at h)),
                    flush_pages-handed sink faithful w (length all) s' all rest flushed,
                    total-append w pending (n ∷ nonces),
                    handed-wait sink faithful w s,
                  )))
        ]
      ]

  module _ (contains : ℕ → Bool) where
    -- The weight of a nonce, if the client's tree does not contain it.
    abbrev pub unless_contained : ℕ → ℕ
    unless_contained n = if contains n then 0 else w n

    -- What the client lacks of the batches in the channel.
    abbrev pub lacking : List (List ℕ) → ℕ
    lacking queue = total (total unless_contained) queue

    total-absent :
        (nonces : List ℕ) → total w (absent contains nonces) ≡ total unless_contained nonces
    total-absent [] = refl
    total-absent (n ∷ nonces) = elim (Bool-cases (contains n)) [
      | inl present ↦ rw present (omega (arith, total-absent nonces))
      | inr lacked ↦ rw lacked (ap (λ k. w n + k) (total-absent nonces))
    ]

    -- What the parents hold.
    abbrev pub held : List Parent → ℕ
    held ps = total (λ p. total w p.local_nonces) ps

    -- A step between two states of the parents' loop: what is handed over, held and searched for is the same
    -- in sum, unless there is an error.
    abbrev pub Keeps : Shared sink → List Parent → Shared sink → List Parent → Type 0
    Keeps sh ps sh' ps' =
        sh'.failed ≡ false
        → (sh.failed ≡ false)
          × (handed sink faithful w sh'.state + held ps' + lacking sh'.queue
              ≡ handed sink faithful w sh.state + held ps + lacking sh.queue)

    pull-Keeps :
        (sh : Shared sink) (nonces : List ℕ) (queue : List (List ℕ))
        → sh.queue ≡ queue
        → IsSmall queue
        → Keeps sh
            (record { local_nonces = nonces; running = true } ∷ [])
            (pull sink contains sh nonces queue).0
            ((pull sink contains sh nonces queue).1 ∷ [])
    unfolding pull
    pull-Keeps sh nonces [] e small = λ clean.
        let ok : (flush_last sink sh.state nonces).1 ≡ true = ground arith in
        (ground arith, omega (arith, flush_last-handed sink faithful w sh.state nonces ok))
    pull-Keeps sh nonces (batch ∷ batches) e small =
        let all = nonces ++ process_with_children contains batch in
        let (s, left) = flush_pages sink (length all) sh.state all in
        elim (Option-cases left) [
          | inl broken ↦ λ clean. cc (rw (broken, pull) at clean)
          | inr (rest, flushed) ↦
              rw (flushed, pull)
                (λ clean. (
                  clean,
                  rw e (
                      omega (
                        arith,
                        flush_pages-handed sink faithful w (length all) sh.state all rest flushed,
                        total-append w nonces (process_with_children contains batch),
                        ap (total w) (process_with_children_lem contains batch small.0),
                        total-absent batch,
                      )),
                ))
        ]

    turn-Keeps :
        (sh : Shared sink) (p : Parent)
        → IsSmall sh.queue
        → Keeps sh (p ∷ []) (turn sink contains sh p).0 ((turn sink contains sh p).1 ∷ [])
    unfolding turn
    turn-Keeps sh p small = elim (Bool-cases p.running) [
      | inr ended ↦ rw (ended, turn) (λ clean. (clean, refl))
      | inl running ↦ elim (Bool-cases (wait_for_batch_start sh.state).1) [
        | inr cancelled ↦ rw (running, turn) (rw cancelled (λ clean. cc))
        | inl ready ↦
            rw (running, turn)
              (rw ready (λ clean.
                let (fine, same) =
                  pull-Keeps (record sh { state = (wait_for_batch_start sh.state).0 })
                    p.local_nonces sh.queue refl small clean in
                (fine, omega (arith, same, handed-wait sink faithful w sh.state))))
      ]
    ]

    pub turn_at-Keeps :
        (i : ℕ) (sh : Shared sink) (ps : List Parent)
        → IsSmall sh.queue
        → Keeps sh ps (turn_at sink contains i sh ps).0 (turn_at sink contains i sh ps).1
    unfolding turn_at
    turn_at-Keeps i sh [] small clean = (clean, refl)
    turn_at-Keeps zero sh (p ∷ ps) small clean =
        let (fine, same) = turn-Keeps sh p small clean in (fine, omega (arith, same))
    turn_at-Keeps (suc i) sh (p ∷ ps) small clean =
        let (fine, same) = turn_at-Keeps i sh ps small clean in (fine, omega (arith, same))

-- What a turn leaves of the channel, and of a parent that has stopped.
module _ (sink : Sink) (contains : ℕ → Bool) where
  open sink use {wait_for_batch_start}

  -- A parent that has stopped holds nothing, and has found the channel empty.
  abbrev pub IsDrained : Shared sink → Parent → Type 0
  IsDrained sh p = p.running ≡ false → (p.local_nonces ≡ []) × (sh.queue ≡ [])

  -- The channel is as before, or a batch is taken from it.
  pub data Shrinks (queue : List (List ℕ)) : List (List ℕ) → Type 0 where
    same : Shrinks queue queue
    taken : (batch : List ℕ) (rest : List (List ℕ)) → queue ≡ batch ∷ rest → Shrinks queue rest

  pull-Shrinks :
      (sh : Shared sink) (nonces : List ℕ) (queue : List (List ℕ))
      → sh.queue ≡ queue
      → Shrinks sh.queue (pull sink contains sh nonces queue).0.queue
        × ((pull sink contains sh nonces queue).0.failed ≡ false
            → IsDrained
                (pull sink contains sh nonces queue).0
                (pull sink contains sh nonces queue).1)
  unfolding pull
  pull-Shrinks sh nonces [] e = (same, λ clean h. (refl, e))
  pull-Shrinks sh nonces (batch ∷ batches) e =
      let all = nonces ++ process_with_children contains batch in
      let (s, left) = flush_pages sink (length all) sh.state all in
      elim (Option-cases left) [
        | inl broken ↦ rw (broken, pull) (taken batch batches e, λ clean. cc)
        | inr (rest, flushed) ↦ rw (flushed, pull) (taken batch batches e, λ clean h. cc)
      ]

  pub turn-Shrinks :
      (sh : Shared sink) (p : Parent)
      → Shrinks sh.queue (turn sink contains sh p).0.queue
        × ((turn sink contains sh p).0.failed ≡ false
            → IsDrained sh p
            → IsDrained (turn sink contains sh p).0 (turn sink contains sh p).1)
  unfolding turn
  turn-Shrinks sh p = elim (Bool-cases p.running) [
    | inr ended ↦ rw (ended, turn) (same, λ clean d. d)
    | inl running ↦ elim (Bool-cases (wait_for_batch_start sh.state).1) [
      | inr cancelled ↦ rw (running, turn) (rw cancelled (same, λ clean. cc))
      | inl ready ↦
          let (less, drained) =
            pull-Shrinks (record sh { state = (wait_for_batch_start sh.state).0 }) p.local_nonces
              sh.queue refl in
          rw (running, turn) (rw ready (less, λ clean d. drained clean))
    ]
  ]
