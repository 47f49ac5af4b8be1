-- ===== src/Common.antt =====
-- The names that the other modules share: the libraries', passed on, the Boolean tests on numbers
-- and options, and those of the child modules.
mod Tests
mod Lists
mod Doubles
mod Sql
mod Keys
mod Sums
mod Sort
mod Groups
mod Strings
pub mod Int
pub use Tests.*
pub use Lists.*
pub use Doubles.*
unfoldable pub use Sql.*
pub use Keys.*
pub use Sums.*
pub use Sort.*
unfoldable pub use Groups.*
unfoldable pub use Strings.*
pub use Prim.Native.Nat.{ℕ, zero, suc, ◌+◌, ◌-◌, ◌*◌, ◌≤◌, ◌<◌}
pub use mathlib.Core.Path.{◌≡◌, refl, sym, ap, ap₂, ◌∙◌, subst, fun_ext}
pub use mathlib.Core.Logic.{◌≢◌, ◌⊎◌, ◌↔◌, inl, inr}
pub use mathlib.Core.Bool.{Bool, true, false, not, ◌&&◌, ◌||◌}
pub use mathlib.Core.Option.{Option, none, some}
pub use mathlib.Core.List.{List, [], ◌∷◌, ◌++◌, map, reverse}
pub use native.Mathlib.Omega.{arith}
