-- ===== src/Common.antt =====
-- What the models share: library names passed on, Boolean tests, lists over the native numbers,
-- bit facts and little-endian integers. Nothing here models code of the repository by itself.
mod Tests
mod Lists
mod Order
pub mod Pigeonhole
pub mod Bits
pub mod Bytes
pub use Tests.*
pub use Lists.*
unfoldable pub use Order.{lt_wf}
pub use Prim.Native.Nat.{ℕ, zero, suc, ◌+◌, ◌-◌, ◌*◌, ◌/◌, ◌%◌, ◌^◌, ◌≤◌, ◌<◌, min}
pub use Prim.Native.Nat.{bit_or, bit_xor, bit_and}
pub use mathlib.Core.Path.{◌≡◌, refl, sym, ap, ◌∙◌, subst}
pub use mathlib.Core.Logic.{◌≢◌, ◌↔◌, ◌⊎◌, inl, inr}
pub use mathlib.Core.Bool.{Bool, true, false, ◌&&◌, ◌||◌, not}
pub use mathlib.Core.Option.{Option, none, some}
pub use mathlib.Core.List.{List, [], ◌∷◌, ◌++◌, append_assoc, append-nil}
pub use mathlib.Core.WellFounded.{Acc}
pub use native.Mathlib.Omega.{arith}
