-- ===== src/Common/Span.antt =====
-- Runs of consecutive numbers.
use jmdn_fast_sync.Common.{ℕ, zero, suc, ◌+◌, ◌≡◌, refl, ap, ap₂, ◌∙◌, List, [], ◌∷◌, ◌++◌, arith}

-- The `n` numbers from `start` on.
abbrev pub span : ℕ → ℕ → List ℕ
span start zero = []
span start (suc n) = start ∷ span (start + 1) n

-- Stated for a start and a length given by equations, since `start + 0` is stuck.
pub span-append : (m n start k : ℕ) → k ≡ m + n → span start k ≡ span start m ++ span (start + m) n
span-append zero n start k e =
    let a : k ≡ n = omega arith in let b : start ≡ start + 0 = omega arith in ap₂ span b a
span-append (suc m) n start k e =
    let a : k ≡ suc (m + n) = omega arith in
    let b : start + 1 + m ≡ start + suc m = omega arith in
    ap (span start) a
    ∙ ap (◌∷◌ start)
        (span-append m n (start + 1) (m + n) refl ∙ ap (λ j. span (start + 1) m ++ span j n) b)
