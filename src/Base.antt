-- ===== src/Base.antt =====
-- The names that every module shares: the libraries' names, passed on, the Boolean tests, arrays
-- as lists, the bit operations of C as arithmetic, and powers of two.
mod Tests
mod Lists
mod Bitwise
mod Powers
mod Options
mod Members
pub use Tests.*
unfoldable pub use Tests.{all_below}
pub use Lists.*
pub use Bitwise.*
pub use Options.*
pub use Members.*
pub use Powers.*
pub use Prim.Native.Nat.{ℕ, zero, suc, ◌+◌, ◌-◌, ◌*◌, ◌/◌, ◌%◌, ◌^◌, ◌≤◌, ◌<◌}
pub use Prim.Native.Nat.{bit_and, bit_or, bit_xor}
pub use mathlib.Core.Path.{◌≡◌, refl, sym, ap, ap₂, ◌∙◌, subst}
pub use mathlib.Core.Logic.{◌≢◌, ◌↔◌, ◌⊎◌, inl, inr}
pub use mathlib.Core.Bool.{Bool, true, false, not, ◌&&◌, ◌||◌, false≢true}
pub use mathlib.Core.Option.{Option, none, some}
pub use mathlib.Core.List.{List, [], ◌∷◌, ◌++◌, map, append_assoc, append-nil}
pub use native.Mathlib.Omega.{arith}
