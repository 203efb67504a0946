-- ===== src/Common.antt =====
-- The names that the other modules share: the libraries' names, passed on, and four children with
-- the tests, the lists, the signed 64-bit numbers and the maps that the code uses.
mod Tests
mod Lists
mod Int
mod Fallible
pub mod Dict
pub use Tests.*
pub use Lists.*
unfoldable pub use Int.{wrap_i64, ◌+ℤ◌}
pub use Int.*
pub use Fallible.*
pub use Prim.Native.Nat.{ℕ, zero, suc, ◌+◌, ◌-◌, ◌*◌, ◌/◌, ◌%◌, ◌^◌, ◌≤◌, ◌<◌, min, max}
pub use Prim.Native.String.{String}
pub use mathlib.Core.Path.{◌≡◌, refl, sym, ap, subst, ◌∙◌}
pub use mathlib.Core.Logic.{◌≢◌, ◌↔◌, ◌⊎◌, inl, inr}
pub use mathlib.Core.Bool.{Bool, true, false, not, ◌&&◌, ◌||◌}
pub use mathlib.Core.Option.{Option, none, some}
pub use mathlib.Core.List.{List, [], ◌∷◌, ◌++◌, map}
pub use native.Mathlib.Omega.{arith}
