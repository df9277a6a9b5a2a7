-- ===== src/Base.antt =====
-- Names that the modules share: the libraries', passed on, Boolean tests, lists with native
-- indices, and `size_t` arithmetic (kernel/include/public/mos/types.h).
mod Tests
mod Lists
mod Tabulate
mod Words
mod Bits
mod Align
pub use Tests.*
pub use Lists.*
pub use Tabulate.*
pub use Align.*
pub use Bits.*
unfoldable pub use Words.*
pub use Prim.Native.Nat.{ℕ, zero, suc, ◌+◌, ◌-◌, ◌*◌, ◌/◌, ◌%◌, ◌^◌, ◌≤◌, ◌<◌, min}
pub use mathlib.Core.Path.{◌≡◌, refl, sym, ap, ◌∙◌}
pub use mathlib.Core.Logic.{◌≢◌, ◌↔◌, ◌⊎◌, inl, inr}
pub use mathlib.Core.Bool.{Bool, true, false, not, ◌&&◌, ◌||◌}
pub use mathlib.Core.Option.{Option, none, some}
pub use mathlib.Core.List.{List, [], ◌∷◌, ◌++◌, append-nil, append_assoc}
pub use native.Mathlib.Omega.{arith}
