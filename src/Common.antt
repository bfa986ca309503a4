-- ===== src/Common.antt =====
-- The names that the other modules share: the libraries', passed on, and those of the children
-- for tests, lists and return codes. Bit laws and byte checks stand in children of their own.
mod Tests
mod Lists
mod Ret
mod Codes
pub mod Bits
pub mod Table
pub mod Text
pub mod Decimal
pub use Tests.*
pub use Lists.*
pub use Ret.*
pub use Codes.*
pub use Prim.Native.Nat.{ℕ, zero, suc, ◌+◌, ◌-◌, ◌*◌, ◌/◌, ◌%◌, ◌^◌, ◌≤◌, ◌<◌, min, bit_xor}
pub use Prim.Native.Nat.{bit_and, bit_or}
pub use mathlib.Core.Path.{◌≡◌, refl, sym, ap, ap₂, subst, ◌∙◌}
pub use mathlib.Core.Logic.{◌≢◌, ◌↔◌, ◌⊎◌, inl, inr}
pub use mathlib.Core.Bool.{Bool, true, false, not, ◌&&◌, ◌||◌}
pub use mathlib.Core.Option.{Option, none, some}
pub use mathlib.Core.List.{List, [], ◌∷◌, ◌++◌, map}
pub use native.Mathlib.Omega.{arith}
