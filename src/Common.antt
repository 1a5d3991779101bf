-- ===== src/Common.antt =====
-- The names that the other modules share: the libraries', passed on, and those of the children.
mod Tests
mod Lists
mod Results
mod Integers
mod Texts
mod Decimal
mod Bytes
mod Blocks
mod Maps
mod Words
unfoldable pub use Tests.*
unfoldable pub use Lists.*
pub use Results.*
pub use Integers.*
unfoldable pub use Texts.*
unfoldable pub use Decimal.*
unfoldable pub use Bytes.*
unfoldable pub use Maps.*
unfoldable pub use Words.*
pub use Blocks.*
pub use Prim.Native.Nat.{ℕ, zero, suc, ◌+◌, ◌-◌, ◌*◌, ◌/◌, ◌%◌, ◌^◌, ◌≤◌, ◌<◌, min}
pub use mathlib.Core.Path.{◌≡◌, refl, sym, ap, ◌∙◌}
pub use mathlib.Core.Logic.{◌≢◌, ◌↔◌, ◌⊎◌, inl, inr}
pub use mathlib.Core.Bool.{Bool, true, false, not, ◌&&◌, ◌||◌}
pub use mathlib.Core.Option.{Option, none, some}
pub use mathlib.Core.List.{List, [], ◌∷◌, ◌++◌, map}
pub use native.Mathlib.Omega.{arith}
