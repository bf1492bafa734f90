-- ===== src/Prelude.antt =====
-- The names that the other modules share: the libraries', passed on, and those of the children.
mod Basics
mod Lists
mod Int
mod Strings
mod Errors
mod Maps
mod Sort
mod Spaces
mod Lines
mod Decimal
mod Float
pub use Basics.*
pub use Lists.*
pub use Int.*
pub use Strings.*
unfoldable pub use Errors.*
unfoldable pub use Maps.*
unfoldable pub use Sort.*
unfoldable pub use Spaces.*
unfoldable pub use Lines.*
unfoldable pub use Decimal.*
unfoldable pub use Float.*
pub use Prim.Native.Nat.{ℕ, zero, suc, ◌+◌, ◌-◌, ◌*◌, ◌/◌, ◌%◌, ◌≤◌, ◌<◌}
pub use Prim.Native.String.{String}
pub use mathlib.Core.Path.{◌≡◌, refl, sym, ap, ◌∙◌}
pub use mathlib.Core.Logic.{◌≢◌, ◌↔◌, ◌⊎◌, inl, inr}
pub use mathlib.Core.Bool.{Bool, true, false, not, ◌&&◌, ◌||◌}
pub use mathlib.Core.Option.{Option, none, some}
pub use mathlib.Core.List.{List, [], ◌∷◌, ◌++◌, append_assoc, append-nil}
pub use native.Mathlib.Omega.{arith}
