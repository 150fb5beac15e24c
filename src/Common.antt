-- ===== src/Common.antt =====
-- What the other modules share: library names passed on, Boolean tests on numbers, lists under
-- native indices, Rust's `Result`, and sorted maps.
mod Tests
mod Lists
pub mod Keyed
mod Outcome
pub mod Totals
pub use Tests.*
pub use Keyed.*
pub use Lists.*
pub use Outcome.*
pub use Totals.*
pub use Prim.Native.Nat.{
  ℕ, zero, suc, ◌+◌, ◌-◌, ◌*◌, ◌/◌, ◌%◌, ◌^◌, ◌≤◌, ◌<◌, max, min, compare, Ordering,
}
pub use mathlib.Core.Path.{◌≡◌, refl, sym, ap, ◌∙◌, subst}
pub use mathlib.Core.Logic.{◌≢◌, ◌↔◌, ◌⊎◌, inl, inr}
pub use mathlib.Core.Bool.{Bool, true, false, not, ◌&&◌, ◌||◌}
pub use mathlib.Core.Option.{Option, none, some}
pub use mathlib.Core.List.{List, [], ◌∷◌, ◌++◌, map}
pub use native.Mathlib.Omega.{arith}
