-- ===== src/Base.antt =====
-- Names that all parts share: the libraries' names passed on, Boolean tests on the native
-- numbers, lists measured by them, and database tables as lists of rows.
mod Tests
mod Lists
mod Tables
mod Texts
mod Trim
pub mod Attempts
pub use Tests.*
pub use Lists.*
pub use Tables.*
pub use Texts.*
pub use Trim.*
unfoldable pub use Texts.{text_eq, starts_with, split_on, join_with}
unfoldable pub use Trim.{is_white, trim_start, trim_end, trim}
pub use Prim.Native.Nat.{
  ℕ, zero, suc, ◌+◌, ◌-◌, ◌*◌, ◌/◌, ◌%◌, ◌^◌, ◌≤◌, ◌<◌, compare, Ordering, bit_xor, min,
}
pub use Prim.Native.String.{String}
pub use mathlib.Core.Path.{◌≡◌, refl, sym, ap, subst, ◌∙◌, ◌≡⟨◌⟩◌, ◌∎}
pub use mathlib.Core.Logic.{◌≢◌, ◌↔◌, ◌⊎◌, inl, inr}
pub use mathlib.Core.Bool.{Bool, true, false, not, ◌&&◌, ◌||◌}
pub use mathlib.Core.Option.{Option, none, some}
pub use mathlib.Core.List.{List, [], ◌∷◌, ◌++◌, map}
pub use native.Mathlib.Omega.{arith}
pub use text.Mathlib.TextEquality.{eq_iff}
unfoldable pub use text.Mathlib.Text.{◌==◌ as str_eq}
