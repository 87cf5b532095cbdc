-- ===== src/Prelude.antt =====
-- The names that the other modules share: the libraries', passed on, and those of the children:
-- the Rust standard library's string, number and list functions that the sources call.
mod Tests
mod Lists
mod Sets
mod Results
mod Text
mod Bytes
pub mod TextOrder
pub mod Sorting
pub mod Maps
mod Patterns
mod Chars
mod Ints
pub use Tests.*
unfoldable pub use Lists.*
pub use Sets.*
pub use Results.*
unfoldable pub use Text.*
unfoldable pub use Bytes.*
unfoldable pub use Patterns.*
unfoldable pub use Chars.*
pub use Ints.*
pub use Prim.Native.Nat.{ℕ, zero, suc, ◌+◌, ◌-◌, ◌*◌, ◌%◌, ◌^◌, ◌≤◌, ◌<◌, min, max}
pub use Prim.Native.Char.{Char, code}
pub use Prim.Native.String.{String, len}
pub use text.Mathlib.Text.{starts_with}
pub use text.Mathlib.TextEquality.{eq_iff}
pub use mathlib.Core.Path.{◌≡◌, refl, sym, ap, ◌∙◌, subst}
pub use mathlib.Core.Logic.{◌≢◌, ◌↔◌, ◌⊎◌, inl, inr}
pub use mathlib.Core.Bool.{Bool, true, false, not, ◌&&◌, ◌||◌}
pub use mathlib.Core.Option.{Option, none, some}
pub use mathlib.Core.List.{List, [], ◌∷◌, ◌++◌, map}
pub use native.Mathlib.Omega.{arith}
