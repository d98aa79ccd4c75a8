-- ===== src/Base.antt =====
-- Names that every module shares: the libraries' names passed on, tests on numbers, lists with
-- native indices, signed integers, and the bit operations of C as arithmetic.
mod Tests
mod Lists
pub mod Int
pub mod Bits
pub mod Xor
pub mod Masks
pub mod Strings
pub mod Trim
pub use Tests.*
pub use Lists.*
pub use Int.{ℤ, pos, negsuc, is_zero, is_negative}
pub use Prim.Native.Nat.{
  ℕ, zero, suc, ◌+◌, ◌-◌, ◌*◌, ◌/◌, ◌%◌, ◌^◌, ◌≤◌, ◌<◌, bit_and, bit_or, bit_xor,
}
pub use mathlib.Core.Path.{◌≡◌, refl, sym, ap, ◌∙◌}
pub use mathlib.Core.Logic.{◌≢◌, ◌↔◌, ◌⊎◌, inl, inr}
pub use mathlib.Core.Bool.{Bool, true, false, not, ◌&&◌, ◌||◌}
pub use mathlib.Core.Option.{Option, none, some}
pub use mathlib.Core.List.{List, [], ◌∷◌, ◌++◌, map, append_assoc, append-nil}
pub use native.Mathlib.Omega.{arith}
