-- ===== src/DataSync/Queue/Waiting.antt =====
-- The batches that wait in `outOfOrderBatches`, by their numbers.
use jmdn_fast_sync.Common.{
  ℕ, ◌+◌, ◌<◌, ◌≡◌, refl, ap, ◌∙◌, ◌⊎◌, inl, inr, ◌&&◌, none, some, List, [], ◌∷◌, length, leb,
  ◌==◌, if◌then◌else◌, Bool-cases, All, arith,
}
use jmdn_fast_sync.DataSync.Queue.{Buffered, find, remove}

-- How often a number occurs.
abbrev pub occurs : ℕ → List ℕ → ℕ
occurs k [] = 0
occurs k (i ∷ is) = (if i == k then 1 else 0) + occurs k is

-- 1 for the numbers from `e` to `n`, 0 for the others.
abbrev pub window : ℕ → ℕ → ℕ → ℕ
window n e k = if leb e k && leb k n then 1 else 0

module _ {Batch : Type 0} where
  abbrev pub held : ℕ → Buffered Batch → ℕ
  held k [] = 0
  held k ((j, b) ∷ m) = (if j == k then 1 else 0) + held k m

  pub held-remove :
      (k id : ℕ) (m : Buffered Batch) → held k (remove id m) ≡ (if k == id then 0 else held k m)
  unfolding remove
  held-remove k id [] = ground arith
  held-remove k id ((j, b) ∷ m) = ground (arith, held-remove k id m)

  pub length-remove : (id : ℕ) (m : Buffered Batch) → length (remove id m) + held id m ≡ length m
  unfolding remove
  length-remove id [] = omega arith
  length-remove id ((j, b) ∷ m) = ground (arith, length-remove id m)

module _ {Batch : Type 0} (batch_of : ℕ → Batch) where
  -- The waiting batches stand under their numbers.
  abbrev pub Named : Buffered Batch → Type 0
  Named m = All (λ p. p.1 ≡ batch_of p.0) m

  pub remove-Named : (id : ℕ) (m : Buffered Batch) → Named m → Named (remove id m)
  unfolding remove
  remove-Named id [] n = tt
  remove-Named id ((j, b) ∷ m) n = elim (Bool-cases (j == id)) [
    | inl same ↦ rw same (remove-Named id m n.1)
    | inr other ↦ rw other (n.0, remove-Named id m n.1)
  ]

  pub find-cases :
      (id : ℕ) (m : Buffered Batch)
      → Named m
      → ((find id m ≡ none) × (held id m ≡ 0))
        ⊎ ((find id m ≡ some (batch_of id)) × (0 < held id m))
  unfolding find
  find-cases id [] n = inl (refl, refl)
  find-cases id ((j, b) ∷ m) n = elim (Bool-cases (j == id)) [
    | inl same ↦
        let j≡id : j ≡ id = ground arith in
        inr (rw same (ap some (n.0 ∙ ap batch_of j≡id)), ground arith)
    | inr other ↦ elim (find-cases id m n.1) [
      | inl (f, h) ↦ inl (rw other f, ground (arith, h))
      | inr (f, h) ↦ inr (rw other f, ground (arith, h))
    ]
  ]
