-- ===== src/Common/Result.antt =====
-- What a Go function with an error returns, and what a function that may panic returns.
use Prim.Native.String.{String}
use mathlib.Core.Path.{◌≡◌, refl}
use mathlib.Core.Logic.{◌⊎◌, inl, inr}

-- `(value, nil)`, or an error with its text.
pub data Result {ℓ} (A : Type ℓ) : Type ℓ where
  ok : A → Result A
  fails : String → Result A

-- The outcome of a call: a value, a panic, or a loop for which the model's fuel is not enough.
pub data Answer {ℓ} (A : Type ℓ) : Type ℓ where
  answered : A → Answer A
  panicked endless : Answer A

infixl 5 ◌>>=◌
abbrev pub ◌>>=◌ {ℓ κ} : {A : Type ℓ} {B : Type κ} → Answer A → (A → Answer B) → Answer B
answered a >>= f = f a
panicked >>= f = panicked
endless >>= f = endless

-- A split on a result that keeps the equation.
pub Result-cases {ℓ} :
    {A : Type ℓ} (r : Result A) → ((e : String) × (r ≡ fails e)) ⊎ ((a : A) × (r ≡ ok a))
Result-cases (ok a) = inr (a, refl)
Result-cases (fails e) = inl (e, refl)

-- The parts of an answer that is known twice.
pub answered-pair :
    {A B : Type 0} {x y : A} {c d : B}
    → ◌≡◌ {A = Answer (A × B)} (answered (x, c)) (answered (y, d))
    → (x ≡ y) × (c ≡ d)
answered-pair h = (cc, cc)
