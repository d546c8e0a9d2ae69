-- ===== src/Base.antt =====
-- Names that every module shares: the libraries', passed on, and those of the child modules.
-- The children hold Boolean tests, lists, signed integers and the results of fallible code.
mod Tests
mod Lists
mod Sizes
mod Updated
mod Sorted
mod Int
mod Errors
pub use Prim.Native.Nat.{ℕ, zero, suc, ◌+◌, ◌-◌, ◌*◌, ◌/◌, ◌%◌, ◌^◌, ◌≤◌, ◌<◌}
pub use mathlib.Core.Path.{◌≡◌, refl, sym, ap, subst, subst₂, ◌∙◌}
pub use mathlib.Core.Logic.{◌≢◌, ◌↔◌, ◌⊎◌, inl, inr}
pub use mathlib.Core.Bool.{Bool, true, false, not, ◌&&◌, ◌||◌}
pub use mathlib.Core.Option.{Option, none, some}
pub use mathlib.Core.List.{List, [], ◌∷◌, ◌++◌, map}
pub use native.Mathlib.Omega.{arith}
pub use Tests.*
pub use Lists.*
pub use Sizes.*
pub use Updated.*
pub use Sorted.*
pub use Errors.*
unfoldable pub use Int.*
