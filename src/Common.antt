-- ===== src/Common.antt =====
-- The names that the other modules share: the libraries', passed on, and the Boolean tests and
-- list helpers of two children. It models no code of the repository by itself.
mod Tests
mod Lists
pub mod Int
pub mod Text
pub mod Decimal
pub mod Dict
pub mod Outcome
pub mod Trace
pub mod Substring
pub use Tests.*
pub use Lists.*
pub use Prim.Native.Nat.{ℕ, zero, suc, ◌+◌, ◌-◌, ◌*◌, ◌/◌, ◌%◌, ◌≤◌, ◌<◌}
pub use mathlib.Core.Path.{◌≡◌, refl, sym, ap, ◌∙◌}
pub use mathlib.Core.Logic.{◌≢◌, ◌↔◌, ◌⊎◌, inl, inr}
pub use mathlib.Core.Bool.{Bool, true, false, not, ◌&&◌, ◌||◌}
pub use mathlib.Core.Option.{Option, none, some}
pub use mathlib.Core.List.{List, [], ◌∷◌, ◌++◌, map}
pub use native.Mathlib.Omega.{arith}
