-- ===== src/Common/Sort.antt =====
-- `sort.Slice` and `slices.Sort` of Go's standard library by a numeric key, as insertion sort. The
-- real routine may order the elements of one key differently.
use jmdn_fast_sync.Common.{
  ℕ, suc, ◌≤◌, ◌≡◌, refl, List, [], ◌∷◌, Bool, true, false, ◌||◌, ltb, All, All-imp, any, length,
  arith,
}

module _ {ℓ} {A : Type ℓ} (key : A → ℕ) where
  insert : A → List A → List A
  insert x [] = x ∷ []
  insert x (y ∷ ys) = elim (ltb (key y) (key x)) [ true ↦ y ∷ insert x ys | false ↦ x ∷ y ∷ ys ]

  unfoldable pub sort : List A → List A
  unfolding insert
  sort [] = []
  sort (x ∷ xs) = insert x (sort xs)

  -- The keys never fall from an element to a later one.
  abbrev pub IsSorted : List A → Type 0
  IsSorted [] = Unit
  IsSorted (x ∷ xs) = All (λ y. key x ≤ key y) xs × IsSorted xs

  any-insert : (p : A → Bool) (x : A) (xs : List A) → any p (insert x xs) ≡ (p x || any p xs)
  unfolding insert
  any-insert p x [] = refl
  any-insert p x (y ∷ ys) = ground (arith, any-insert p x ys)

  pub any-sort : (p : A → Bool) (xs : List A) → any p (sort xs) ≡ any p xs
  unfolding sort
  any-sort p [] = refl
  any-sort p (x ∷ xs) = ground (arith, any-insert p x (sort xs), any-sort p xs)

  length-insert : (x : A) (xs : List A) → length (insert x xs) ≡ suc (length xs)
  unfolding insert
  length-insert x [] = refl
  length-insert x (y ∷ ys) = ground (arith, length-insert x ys)

  pub length-sort : (xs : List A) → length (sort xs) ≡ length xs
  unfolding sort
  length-sort [] = refl
  length-sort (x ∷ xs) = ground (arith, length-insert x (sort xs), length-sort xs)

  module _ {κ} (P : A → Type κ) where
    All-insert : (x : A) (xs : List A) → P x → All P xs → All P (insert x xs)
    unfolding insert
    All-insert x [] p ps = (p, tt)
    All-insert x (y ∷ ys) p ps =
        elim (ltb (key y) (key x))
          as (λ b. All P (elim b [ true ↦ y ∷ insert x ys | false ↦ x ∷ y ∷ ys ])) [
            | true ↦ (ps.0, All-insert x ys p ps.1)
            | false ↦ (p, ps)
          ]

    pub All-sort : (xs : List A) → All P xs → All P (sort xs)
    unfolding sort
    All-sort [] ps = tt
    All-sort (x ∷ xs) ps = All-insert x (sort xs) ps.0 (All-sort xs ps.1)

  insert-IsSorted : (x : A) (xs : List A) → IsSorted xs → IsSorted (insert x xs)
  unfolding insert
  insert-IsSorted x [] s = (tt, tt)
  insert-IsSorted x (y ∷ ys) s = go (insert-IsSorted x ys s.1) (ltb (key y) (key x)) refl
    where
      go :
          IsSorted (insert x ys)
          → (b : Bool) → ltb (key y) (key x) ≡ b
          → IsSorted (elim b [ true ↦ y ∷ insert x ys | false ↦ x ∷ y ∷ ys ])
      go ih true e = (All-insert (λ z. key y ≤ key z) x ys (ground arith) s.0, ih)
      go ih false e = (
        (
          ground arith,
          All-imp (λ z. key y ≤ key z) (λ z. key x ≤ key z) (λ z h. ground arith) ys s.0,
        ),
        s,
      )

  pub sort-IsSorted : (xs : List A) → IsSorted (sort xs)
  unfolding sort
  sort-IsSorted [] = tt
  sort-IsSorted (x ∷ xs) = insert-IsSorted x (sort xs) (sort-IsSorted xs)
