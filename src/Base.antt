-- ===== src/Base.antt =====
-- The names that every module shares: the libraries' passed on, Boolean tests and lists over the
-- native numbers, and the string operations of the language that the program walks texts with.
mod Tests
mod Lists
mod Texts
mod Trims
pub mod Sorts
pub mod Patterns
pub mod Ints
pub mod Cycles
pub use Tests.*
pub use Lists.*
unfoldable pub use Texts.*
unfoldable pub use Trims.*
pub use Prim.Native.Nat.{ℕ, zero, suc, ◌+◌, ◌-◌, ◌*◌, ◌/◌, ◌%◌, ◌^◌, ◌≤◌, ◌<◌, min, max}
pub use Prim.Native.String.{String}
pub use mathlib.Core.Path.{◌≡◌, refl, sym, ap, subst, ◌∙◌}
pub use mathlib.Core.Logic.{◌≢◌, ◌↔◌, ◌⊎◌, inl, inr}
pub use mathlib.Core.Bool.{Bool, true, false, not, ◌&&◌, ◌||◌}
pub use mathlib.Core.Option.{Option, none, some}
pub use mathlib.Core.List.{List, [], ◌∷◌, ◌++◌, map}
pub use native.Mathlib.Omega.{arith}
pub use text.Mathlib.Text.{◌==◌ as str_eq}
pub use text.Mathlib.TextEquality.{eq_iff}
