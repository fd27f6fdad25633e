-- ===== src/Base.antt =====
-- What every other file shares: library names passed on, Boolean tests, lists measured by native
-- numbers, counted loops and the laws of the bit operations.
mod Compare
mod Lists
mod Loops
pub mod Bits
pub use Compare.*
pub use Lists.*
unfoldable pub use Compare.{checked}
unfoldable pub use Loops.{for_loop, find_from}
pub use Loops.{for_loop_inv, IsFirst, NoneBelow, Searched, find_from-Searched}
pub use Prim.Native.Nat.{ℕ, zero, suc, ◌+◌, ◌-◌, ◌*◌, ◌/◌, ◌%◌, ◌^◌, ◌≤◌, ◌<◌, min}
pub use mathlib.Core.Path.{◌≡◌, refl, sym, ap, ◌∙◌}
pub use mathlib.Core.Logic.{◌≢◌, ◌↔◌, ◌⊎◌, inl, inr}
pub use mathlib.Core.Bool.{Bool, true, false, not, ◌&&◌, ◌||◌}
pub use mathlib.Core.Option.{Option, none, some}
pub use mathlib.Core.List.{List, [], ◌∷◌, ◌++◌, map}
pub use native.Mathlib.Omega.{arith}
