-- ===== src/Common.antt =====
-- The names that the components share: those of the libraries, passed on, and those of the
-- children: Boolean tests, lists measured by native numbers, and Go strings as lists of runes.
mod Tests
mod Lists
mod Runes
mod Keyed
mod Decimal
mod Sorting
mod Bytes
mod Replace
unfoldable pub use Tests.*
unfoldable pub use Lists.*
unfoldable pub use Runes.*
unfoldable pub use Keyed.*
unfoldable pub use Decimal.*
unfoldable pub use Sorting.*
unfoldable pub use Bytes.*
unfoldable pub use Replace.*
pub use Prim.Native.Nat.{ℕ, zero, suc, ◌+◌, ◌-◌, ◌*◌, ◌/◌, ◌%◌, ◌≤◌, ◌<◌}
pub use Prim.Native.String.{String}
pub use mathlib.Core.Path.{◌≡◌, refl, sym, ap, ◌∙◌, subst}
pub use mathlib.Core.Logic.{◌≢◌, ◌↔◌, ◌⊎◌, inl, inr}
pub use mathlib.Core.Bool.{Bool, true, false, not, ◌&&◌, ◌||◌}
pub use mathlib.Core.Option.{Option, none, some}
pub use mathlib.Core.List.{Permᴰ, Memᴰ, List, [], ◌∷◌, ◌++◌, map, append_assoc, append-nil}
pub use native.Mathlib.Omega.{arith}
