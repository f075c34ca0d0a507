-- ===== src/Base.antt =====
-- What the modules share: library names passed on, Boolean tests, lists over native numbers,
-- C strings and the interface of `double`.
mod Tests
mod Lists
mod CString
mod Floating
mod Log
mod Rows
mod Decimal
mod Int
pub use Tests.*
pub use Lists.*
unfoldable pub use CString.{snprintf}
pub use CString.*
pub use Floating.*
pub use Int.*
pub use Rows.*
pub use Log.*
unfoldable pub use Decimal.{decimal}
pub use Decimal.{decimal-NoNul, IsDigit, decimal-IsDigit, number_from}
pub use Prim.Native.Nat.{ℕ, zero, suc, ◌+◌, ◌-◌, ◌*◌, ◌/◌, ◌%◌, ◌^◌, ◌≤◌, ◌<◌}
pub use mathlib.Core.Path.{◌≡◌, refl, sym, ap, ap₂, subst, ◌∙◌}
pub use mathlib.Core.Logic.{◌≢◌, ◌↔◌, ◌⊎◌, inl, inr}
pub use mathlib.Core.Bool.{Bool, true, false, not, ◌&&◌, ◌||◌}
pub use mathlib.Core.Option.{Option, none, some}
pub use mathlib.Core.List.{List, [], ◌∷◌, ◌++◌, map}
pub use native.Mathlib.Omega.{arith}
pub use native.Mathlib.Numerals.{add-one}
