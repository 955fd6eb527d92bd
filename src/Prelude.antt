-- ===== src/Prelude.antt =====
-- The names that the other modules share: the libraries', passed on, and those of the children.
mod Tests
mod Lists
mod Effects
mod Integers
mod Strings
pub mod Order
pub mod Occurs
pub mod Keyed
pub mod Decimal
pub mod Texts
pub mod TextOrder
pub use Tests.*
pub use Lists.*
unfoldable pub use Effects.{◌>>=◌}
pub use Effects.{
  Result, ok, err, Exec, pure, raise, gets, modify, continue, ◌>>◌, or_raise, guard_not,
  or_raise_ind, guard_not_ind, continue_ind,
}
pub use Integers.*
unfoldable pub use Strings.{strip}
pub use Strings.{or_none, option_or_none, str_eq_self}
pub use Prim.Native.Nat.{ℕ, zero, suc, ◌+◌, ◌-◌, ◌*◌, ◌/◌, ◌%◌, ◌^◌, ◌≤◌, ◌<◌, min, max}
pub use Prim.Native.String.{String}
pub use mathlib.Core.Path.{◌≡◌, refl, sym, ap, ◌∙◌, subst}
pub use mathlib.Core.Logic.{◌≢◌, ◌↔◌, ◌⊎◌, inl, inr}
pub use mathlib.Core.Bool.{Bool, true, false, not, ◌&&◌, ◌||◌}
pub use mathlib.Core.Option.{Option, none, some}
pub use mathlib.Core.List.{List, [], ◌∷◌, ◌++◌, map}
pub use native.Mathlib.Omega.{arith}
pub use text.Mathlib.Text.{◌==◌ as str_eq}
pub use text.Mathlib.TextEquality.{eq_iff as str_eq_iff}
