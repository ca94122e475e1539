-- ===== src/Common.antt =====
-- The vocabulary that the components share: the libraries' names passed on, the Boolean tests, the
-- list and number helpers of the children, and the unsigned 64-bit arithmetic of Go.
mod Checks
mod Lists
mod Word
pub mod Int
pub mod Result
pub mod Sort
pub mod Span
pub use Checks.*
pub use Lists.*
unfoldable pub use Word.{add64, sub64}
pub use Word.{u64_mod, add64_lem, sub64_lem}
pub use Prim.Native.Nat.{ℕ, zero, suc, ◌+◌, ◌-◌, ◌*◌, ◌/◌, ◌%◌, ◌^◌, ◌≤◌, ◌<◌, min}
pub use mathlib.Core.Path.{◌≡◌, refl, sym, ap, ap₂, subst, ◌∙◌, ◌≡⟨◌⟩◌, ◌∎}
pub use mathlib.Core.Logic.{◌≢◌, ◌↔◌, ◌⊎◌, inl, inr}
pub use mathlib.Core.Bool.{Bool, true, false, ◌&&◌, ◌||◌, not}
pub use mathlib.Core.Option.{Option, none, some}
pub use mathlib.Core.List.{List, [], ◌∷◌, ◌++◌, map, append-nil, append_assoc, map-append}
pub use native.Mathlib.Omega.{arith}
