-- ===== src/Common.antt =====
-- The names that the other modules share: the libraries', passed on, and those of the children
-- on Boolean tests, lists, integers, Go strings and Go maps.
mod Tests
mod Lists
mod Int
mod Strings
mod Assoc
mod Results
mod Sort
mod Decimal
pub use Tests.*
pub use Lists.*
pub use Int.*
pub use Results.*
unfoldable pub use Strings.*
unfoldable pub use Assoc.*
unfoldable pub use Sort.*
unfoldable pub use Decimal.*
pub use Prim.Native.Nat.{ℕ, zero, suc, ◌+◌, ◌-◌, ◌*◌, ◌/◌, ◌%◌, ◌^◌, ◌≤◌, ◌<◌, min}
pub use mathlib.Core.Path.{◌≡◌, refl, sym, ap, ap₂, ◌∙◌}
pub use mathlib.Core.Logic.{◌≢◌, ◌↔◌, ◌⊎◌, inl, inr}
pub use mathlib.Core.Bool.{Bool, true, false, not, ◌&&◌, ◌||◌}
pub use mathlib.Core.Option.{Option, none, some}
pub use mathlib.Core.List.{List, [], ◌∷◌, ◌++◌, map, append-nil, append_assoc}
pub use native.Mathlib.Omega.{arith}
