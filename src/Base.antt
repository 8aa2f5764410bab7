-- ===== src/Base.antt =====
-- The names that the modules share: the libraries', passed on, the Boolean tests, and the outcome
-- of a C++ function that may fail an assertion, throw, or run into undefined behaviour.
mod Tests
mod Outcomes
mod Ids
mod Int
pub use Tests.*
pub use Outcomes.*
unfoldable pub use Ids.{c_str}
pub use Ids.*
pub use Int.*
pub use Prim.Native.Nat.{ℕ, zero, suc, ◌+◌, ◌-◌, ◌*◌, ◌%◌, ◌^◌, ◌≤◌, ◌<◌}
pub use mathlib.Core.Path.{◌≡◌, refl, sym, ap, subst, ◌∙◌}
pub use mathlib.Core.Logic.{◌≢◌, ◌↔◌, ◌⊎◌, inl, inr}
pub use mathlib.Core.Bool.{Bool, true, false, not, ◌&&◌, ◌||◌}
pub use mathlib.Core.Option.{Option, none, some}
pub use mathlib.Core.List.{List, [], ◌∷◌, ◌++◌, map}
pub use native.Mathlib.Omega.{arith}
unfoldable pub use native.Mathlib.Decide.{ℕ_discrete}
