-- ===== src/AccountSync/Difference/Complete.antt =====
-- What ComputeAccountDiff hands to the dispatcher, weighed: a measure of nonces that is 1 at one nonce and
-- 0 elsewhere counts how often this nonce is handed over.
pub mod Turns
pub mod Whole
use jmdn_fast_sync.Common.{
  ℕ, zero, suc, ◌+◌, ◌*◌, ◌≡◌, ◌≤◌, ◌<◌, refl, ap, sym, ◌∙◌, Bool, true, false, Option, none, some,
  List, [], ◌∷◌, ◌++◌, length, take, drop, total, total-append, take-append-drop, leb, ◌==◌, min,
  Bool-cases, Option-cases, inl, inr, arith, if◌then◌else◌, All,
}
use jmdn_fast_sync.AccountSync.Difference.{
  Sink, Batches, nonce_page_size, num_diff_children, child_window, absent, children,
  process_with_children, flush_pages, flush_last, collect_all,
}

-- What the calls of the dispatcher do, as seen by their caller: EnqueueNonces without an error adds the page,
-- and waiting adds none.
pub record IsFaithful (sink : Sink) : Type 0 where
  pub accepted : sink.State → List (List ℕ)
  pub adds :
      (s : sink.State) (page : List ℕ)
      → (sink.enqueue_nonces s page).1 ≡ true
      → accepted (sink.enqueue_nonces s page).0 ≡ accepted s ++ page ∷ []
  pub keeps : (s : sink.State) → accepted (sink.wait_for_batch_start s).0 ≡ accepted s

length-drop : (k : ℕ) (xs : List ℕ) → length (drop k xs) + min k (length xs) ≡ length xs
length-drop zero xs = ground arith
length-drop (suc k) [] = omega arith
length-drop (suc k) (x ∷ xs) = ground (arith, length-drop k xs)

absent-append :
    (contains : ℕ → Bool) (xs ys : List ℕ)
    → absent contains (xs ++ ys) ≡ absent contains xs ++ absent contains ys
absent-append contains [] ys = refl
absent-append contains (x ∷ xs) ys = ground (arith, absent-append contains xs ys)

children_lem :
    (contains : ℕ → Bool) (left : ℕ) (batch : List ℕ)
    → length batch ≤ left * child_window
    → children contains left batch ≡ absent contains batch
unfolding children
children_lem contains zero [] h = refl
children_lem contains zero (n ∷ batch) h = absurd (omega arith)
children_lem contains (suc left) [] h = refl
children_lem contains (suc left) (n ∷ batch) h =
    let filled : (suc (length batch) == 0) ≡ false = ground arith in
    rw filled (
      ap (λ rest. absent contains (take child_window (n ∷ batch)) ++ rest)
        (children_lem contains left (drop child_window (n ∷ batch))
          (omega (arith, length-drop child_window (n ∷ batch))))
      ∙ sym (absent-append contains (take child_window (n ∷ batch)) (drop child_window (n ∷ batch)))
      ∙ ap (absent contains) (take-append-drop child_window (n ∷ batch)))

-- A batch of at most one window for each child is searched to its end.
pub process_with_children_lem :
    (contains : ℕ → Bool) (batch : List ℕ)
    → length batch ≤ num_diff_children * child_window
    → process_with_children contains batch ≡ absent contains batch
unfolding process_with_children
process_with_children_lem contains batch h =
    children_lem contains (min num_diff_children (length batch)) batch (ground arith)

module _ (sink : Sink) (faithful : IsFaithful sink) (w : ℕ → ℕ) where
  open sink use {State, wait_for_batch_start, enqueue_nonces}
  open faithful use {accepted, adds, keeps}

  -- What has been handed over.
  abbrev pub handed : State → ℕ
  handed s = total (total w) (accepted s)

  handed-add :
      (s : State) (page : List ℕ)
      → (enqueue_nonces s page).1 ≡ true
      → handed (enqueue_nonces s page).0 ≡ handed s + total w page
  handed-add s page h =
      ap (total (total w)) (adds s page h)
      ∙ omega (arith, total-append (total w) (accepted s) (page ∷ []))

  pub handed-wait : (s : State) → handed (wait_for_batch_start s).0 ≡ handed s
  handed-wait s = ap (total (total w)) (keeps s)

  pub flush_pages-handed :
      (fuel : ℕ) (s : State) (pending rest : List ℕ)
      → (flush_pages sink fuel s pending).1 ≡ some rest
      → handed (flush_pages sink fuel s pending).0 + total w rest ≡ handed s + total w pending
  unfolding flush_pages
  flush_pages-handed zero s pending rest h =
      let e : pending ≡ rest = cc in omega (arith, ap (total w) e)
  flush_pages-handed (suc fuel) s pending rest h =
      let page = take nonce_page_size pending in
      let more = drop nonce_page_size pending in
      elim (Bool-cases (leb nonce_page_size (length pending))) [
        | inr little ↦
            let k : some pending ≡ some rest = rw (little, flush_pages) at h in
            let e : pending ≡ rest = cc in rw (little, flush_pages) (omega (arith, ap (total w) e))
        | inl enough ↦ elim (Bool-cases (enqueue_nonces s page).1) [
          | inr refused ↦ cc (rw refused at (rw (enough, flush_pages) at h))
          | inl taken ↦
              rw (enough, flush_pages)
                (rw taken (
                  omega (
                    arith,
                    flush_pages-handed fuel (enqueue_nonces s page).0 more rest
                        (rw taken at (rw (enough, flush_pages) at h)),
                    handed-add s page taken,
                    total-append w page more,
                    ap (total w) (take-append-drop nonce_page_size pending),
                  )))
        ]
      ]

  pub flush_last-handed :
      (s : State) (pending : List ℕ)
      → (flush_last sink s pending).1 ≡ true
      → handed (flush_last sink s pending).0 ≡ handed s + total w pending
  unfolding flush_last
  flush_last-handed s [] h = omega arith
  flush_last-handed s (n ∷ pending) h = handed-add s (n ∷ pending) h
