-- ===== src/Common.antt =====
-- The names that the other modules share: the libraries', passed on, and those of the children.
mod Tests
mod Int
mod Errors
mod Outcome
mod Words
mod Store
mod Powers
mod Lists
mod Bytes
mod Parts
mod Tested
pub use Tests.*
unfoldable pub use Int.*
pub use Errors.*
pub use Outcome.*
pub use Tested.*
pub use Parts.*
unfoldable pub use Words.*
pub use Powers.*
pub use Lists.*
unfoldable pub use Bytes.*
unfoldable pub use Store.*
pub use Prim.Native.Nat.{ℕ, zero, suc, ◌+◌, ◌-◌, ◌*◌, ◌/◌, ◌%◌, ◌^◌, ◌≤◌, ◌<◌, min}
pub use mathlib.Core.Path.{◌≡◌, refl, sym, ap, ◌∙◌, subst}
pub use mathlib.Core.Logic.{◌≢◌, ◌↔◌, ◌⊎◌, inl, inr}
pub use mathlib.Core.Bool.{Bool, true, false, not, ◌&&◌, ◌||◌}
pub use mathlib.Core.Option.{Option, none, some}
pub use mathlib.Core.List.{List, [], ◌∷◌, ◌++◌}
pub use native.Mathlib.Omega.{arith}
