-- ===== src/Prelude.antt =====
-- The names that every other module shares: the library's, passed on, and those of the children.
-- No program code is modelled here, only the language's and the library's vocabulary.
mod Tests
mod Lists
mod Results
mod ByteStrings
mod Decimal
pub mod Int
pub mod Strconv
pub mod Map
pub mod Time
pub use Tests.*
pub use Lists.*
pub use Results.*
unfoldable pub use ByteStrings.*
unfoldable pub use Decimal.*
pub use Prim.Native.Nat.{ℕ, zero, suc, ◌+◌, ◌-◌, ◌*◌, ◌/◌, ◌%◌, ◌^◌, ◌≤◌, ◌<◌}
pub use Prim.Native.String.{String}
pub use mathlib.Core.Path.{◌≡◌, refl, sym, ap, ◌∙◌}
pub use mathlib.Core.Logic.{◌≢◌, ◌↔◌, ◌⊎◌, inl, inr}
pub use mathlib.Core.Bool.{Bool, true, false, not, ◌&&◌, ◌||◌}
pub use mathlib.Core.Option.{Option, none, some}
pub use mathlib.Core.List.{List, [], ◌∷◌, ◌++◌, map}
pub use native.Mathlib.Omega.{arith}
