-- ===== src/Base.antt =====
-- The names that the other modules share: the libraries', passed on, and those of the children:
-- Boolean tests, C arrays as lists, the integers, and the bytes of a text.
mod Booleans
mod Lists
mod Ints
mod Chars
mod Options
pub use Booleans.*
pub use Lists.*
pub use Ints.*
pub use Options.*
unfoldable pub use Chars.*
pub use Prim.Native.Nat.{ℕ, zero, suc, ◌+◌, ◌-◌, ◌*◌, ◌/◌, ◌%◌, ◌^◌, ◌≤◌, ◌<◌, min}
pub use mathlib.Core.Path.{◌≡◌, refl, sym, ap, ap₂, ◌∙◌, subst}
pub use mathlib.Core.Logic.{◌≢◌, ◌↔◌, ◌⊎◌, inl, inr}
pub use mathlib.Core.Bool.{Bool, true, false, not, ◌&&◌, ◌||◌}
pub use mathlib.Core.Option.{Option, none, some}
pub use mathlib.Core.List.{List, [], ◌∷◌, ◌++◌, append-nil, append_assoc}
pub use native.Mathlib.Omega.{arith}
