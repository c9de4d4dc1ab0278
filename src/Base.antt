-- ===== src/Base.antt =====
-- Names shared by every module: the libraries' own, Boolean tests, lists with native indices,
-- 32-bit words, and memory as a function from addresses to bytes.
mod Tests
mod Lists
mod Words
mod Ram
mod Bits
mod Or
pub use Tests.*
pub use Lists.*
pub use Words.*
pub use Ram.*
unfoldable pub use Bits.*
pub use Or.*
pub use Prim.Native.Nat.{ℕ, zero, suc, ◌+◌, ◌-◌, ◌*◌, ◌/◌, ◌%◌, ◌^◌, ◌≤◌, ◌<◌, min}
pub use Prim.Native.Nat.{bit_and, bit_or}
pub use mathlib.Core.Path.{◌≡◌, refl, sym, ap, ◌∙◌, fun_ext}
pub use mathlib.Core.Logic.{◌≢◌, ◌↔◌, ◌⊎◌, inl, inr}
pub use mathlib.Core.Bool.{Bool, true, false, not, ◌&&◌, ◌||◌}
pub use mathlib.Core.Option.{Option, none, some}
pub use mathlib.Core.List.{List, [], ◌∷◌, ◌++◌, map}
pub use native.Mathlib.Omega.{arith}
