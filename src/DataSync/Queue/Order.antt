-- ===== src/DataSync/Queue/Order.antt =====
-- The order in which batches are written: whatever the order of arrival, it is that of the batches.
use jmdn_fast_sync.Common.{
  ℕ, zero, suc, ◌+◌, ◌-◌, ◌≤◌, ◌<◌, ◌≡◌, refl, ap, subst, sym, ◌∙◌, ◌⊎◌, inl, inr, Bool, true,
  false, List, [], ◌∷◌, map, length, ◌==◌, Bool-cases, arith,
}
use jmdn_fast_sync.Common.Span.{span}
use jmdn_fast_sync.DataSync.Queue.Waiting.{
  occurs, window, held, held-remove, length-remove, Named, remove-Named, find-cases,
}
use jmdn_fast_sync.DataSync.Queue.{
  Arrival, arrival, Buffered, remove, put, Progress, collecting, stopped, returned, drain, receive,
  collect, process_data_queue,
}

module _ {Batch State : Type 0} (write : State → Batch → State × Bool) (batch_of : ℕ → Batch) where
  -- Writing the batches of the numbers one after the other, up to the first error.
  abbrev pub in_order : State → List ℕ → State × Bool
  in_order s [] = (s, true)
  in_order s (k ∷ ks) = elim (write s (batch_of k)).1 [
    | true ↦ in_order (write s (batch_of k)).0 ks
    | false ↦ ((write s (batch_of k)).0, false)
  ]

  -- The batches that are not written yet are those from the expected one on.
  abbrev rest : ℕ → ℕ → State → State × Bool
  rest n e s = in_order s (span e (n + 1 - e))

  rest_step :
      (n e : ℕ) (s : State)
      → e ≤ n
      → rest n e s ≡ (elim (write s (batch_of e)).1 [
        | true ↦ rest n (e + 1) (write s (batch_of e)).0
        | false ↦ ((write s (batch_of e)).0, false)
      ])
  rest_step n e s le = let one : n + 1 - e ≡ suc (n + 1 - (e + 1)) = omega arith in rw one refl

  -- Each batch from `e` to `n` is either among the arrivals to come or waiting, once.
  record IsSplit (n e : ℕ) (ids : List ℕ) (m : Buffered Batch) : Type 0 where
    counts : (k : ℕ) → occurs k ids + held k m ≡ window n e k
    named : Named batch_of m

  -- The outcome of the inner loop.
  Drained : (n e : ℕ) (ids : List ℕ) (s : State) (p : Progress Batch State) → Type 0
  Drained n e ids s p =
      ((s' : State) × (p ≡ stopped s') × (rest n e s ≡ (s', false)))
      ⊎ ((e' : ℕ) × (m' : Buffered Batch) × (s' : State) × (p ≡ collecting e' m' s')
          × IsSplit n e' ids m'
          × (held e' m' ≡ 0)
          × (rest n e s ≡ rest n e' s'))

  Drained-step :
      (n e e' : ℕ) (ids : List ℕ) (s s' : State) (p : Progress Batch State)
      → rest n e s ≡ rest n e' s'
      → Drained n e' ids s' p
      → Drained n e ids s p
  unfolding Drained
  Drained-step n e e' ids s s' p same d = rw same d

  IsSplit-remove :
      (n e : ℕ) (ids : List ℕ) (m : Buffered Batch)
      → 0 < held e m
      → IsSplit n e ids m
      → IsSplit n (e + 1) ids (remove e m)
  IsSplit-remove n e ids m h x = record {
    counts = λ k. ground (arith, x.counts k, x.counts e, held-remove k e m);
    named = remove-Named batch_of e m x.named;
  }

  drain-Drained :
      (n fuel e : ℕ) (ids : List ℕ) (m : Buffered Batch) (s : State)
      → length m < fuel
      → IsSplit n e ids m
      → Drained n e ids s (drain write fuel e m s)
  unfolding drain Drained
  drain-Drained n zero e ids m s short x = ground (arith, short)
  drain-Drained n (suc fuel) e ids m s short x = elim (find-cases batch_of e m x.named) [
    | inl (f, h) ↦ rw (f, drain) (inr (e, m, s, refl, x, h, refl))
    | inr (f, h) ↦
        let le : e ≤ n = ground (arith, x.counts e) in
        elim (Bool-cases (write s (batch_of e)).1) [
          | inr bad ↦ rw (f, drain) (rw bad (inl (_, refl, rest_step n e s le ∙ rw bad refl)))
          | inl good ↦
              let s' = (write s (batch_of e)).0 in
              let shorter : length (remove e m) < fuel =
                omega (arith, length-remove e m, short, h) in
              rw (f, drain)
                (rw good (
                  Drained-step n e (e + 1) ids s s' _ (rest_step n e s le ∙ rw good refl) (
                    drain-Drained n fuel (e + 1) ids (remove e m) s' shorter
                      (IsSplit-remove n e ids m h x))))
        ]
  ]

  abbrev arrivals : List ℕ → List (Arrival Batch)
  arrivals ids = map (arrival batch_of) ids

  collect-stopped :
      (s : State) (ids : List ℕ) → collect write (stopped s) (arrivals ids) ≡ stopped s
  unfolding collect receive
  collect-stopped s [] = refl
  collect-stopped s (i ∷ ids) = collect-stopped s ids

  IsSplit-put :
      (n e i : ℕ) (ids : List ℕ) (m : Buffered Batch)
      → IsSplit n e (i ∷ ids) m
      → IsSplit n e ids (put i (batch_of i) m)
  IsSplit-put n e i ids m x = record {
    counts = λ k. ground (arith, x.counts k, x.counts i, held-remove k i m);
    named = (refl, remove-Named batch_of i m x.named);
  }

  IsSplit-write :
      (n e : ℕ) (ids : List ℕ) (m : Buffered Batch)
      → IsSplit n e (e ∷ ids) m
      → IsSplit n (e + 1) ids m
  IsSplit-write n e ids m x = record {
    counts = λ k. ground (arith, x.counts k, x.counts e);
    named = x.named;
  }

  receive-later :
      (e i : ℕ) (m : Buffered Batch) (s : State)
      → (i == e) ≡ false
      → receive write (collecting e m s) (arrival batch_of i)
        ≡ collecting e (put i (batch_of i) m) s
  unfolding receive
  receive-later e i m s other = rw other refl

  receive-expected :
      (n e : ℕ) (ids : List ℕ) (m : Buffered Batch) (s : State)
      → IsSplit n e (e ∷ ids) m
      → Drained n e ids s (receive write (collecting e m s) (arrival batch_of e))
  unfolding receive Drained
  receive-expected n e ids m s x =
      let same : (e == e) ≡ true = ground arith in
      let le : e ≤ n = ground (arith, x.counts e) in
      elim (Bool-cases (write s (batch_of e)).1) [
        | inr bad ↦ rw (same, receive) (rw bad (inl (_, refl, rest_step n e s le ∙ rw bad refl)))
        | inl good ↦
            let s' = (write s (batch_of e)).0 in
            rw (same, receive)
              (rw good (
                Drained-step n e (e + 1) ids s s' _ (rest_step n e s le ∙ rw good refl) (
                  drain-Drained n (suc (length m)) (e + 1) ids m s' (omega arith)
                    (IsSplit-write n e ids m x))))
      ]

  collect-in_order :
      (n e : ℕ) (ids : List ℕ) (m : Buffered Batch) (s : State)
      → IsSplit n e ids m
      → held e m ≡ 0
      → returned (collect write (collecting e m s) (arrivals ids)) ≡ rest n e s
  unfolding collect receive Drained
  collect-in_order n e [] m s x h =
      let none_left : n + 1 - e ≡ 0 = ground (arith, x.counts e, h) in rw none_left refl
  collect-in_order n e (i ∷ ids) m s x h = elim (Bool-cases (i == e)) [
    | inr other ↦
        ap (λ p. returned (collect write p (arrivals ids))) (receive-later e i m s other)
        ∙ collect-in_order n e ids (put i (batch_of i) m) s (IsSplit-put n e i ids m x)
            (ground (arith, h, held-remove e i m, other))
    | inl same ↦
        let e≡i : e ≡ i = ground arith in
        settled (receive write (collecting e m s) (arrival batch_of i))
          (subst (λ j. Drained n e ids s (receive write (collecting e m s) (arrival batch_of j)))
            e≡i (receive-expected n e ids m s (subst (λ j. IsSplit n e (j ∷ ids) m) (sym e≡i) x)))
          (λ e' m' s' x' h'. collect-in_order n e' ids m' s' x' h')
  ]
    where
      settled :
          (p : Progress Batch State)
          → Drained n e ids s p
          → ((e' : ℕ) (m' : Buffered Batch) (s' : State)
              → IsSplit n e' ids m'
              → held e' m' ≡ 0
              → returned (collect write (collecting e' m' s') (arrivals ids)) ≡ rest n e' s')
          → returned (collect write p (arrivals ids)) ≡ rest n e s
      settled p (inl (s', stop, done)) ih =
          ap (λ q. returned (collect write q (arrivals ids))) stop
          ∙ ap returned (collect-stopped s' ids)
          ∙ sym done
      settled p (inr (e', m', s', goes, x', h', same)) ih =
          ap (λ q. returned (collect write q (arrivals ids))) goes ∙ ih e' m' s' x' h' ∙ sym same

  -- When every batch from 1 to `n` arrives exactly once and none was refused, the queue ends with the state
  -- and the error that writing the batches one after the other in the order of their numbers gives,
  -- whatever the order in which they arrive.
  pub process_data_queue-in_order :
      (n : ℕ) (ids : List ℕ) (s : State)
      → ((k : ℕ) → occurs k ids ≡ window n 1 k)
      → process_data_queue write s (map (arrival batch_of) ids) ≡ in_order s (span 1 n)
  unfolding process_data_queue
  process_data_queue-in_order n ids s once =
      let all : n + 1 - 1 ≡ n = omega arith in
      collect-in_order n 1 ids [] s (record { counts = λ k. omega (arith, once k); named = tt })
        refl
      ∙ ap (λ j. in_order s (span 1 j)) all
