-- ===== src/Prelude.antt =====
-- The names that the other modules share: the libraries', passed on, and those of the children.
mod Tests
mod Lists
mod Chars
mod Decimal
mod Texts
mod Words
mod Trimming
pub mod Bits
pub use Tests.*
pub use Lists.*
pub use Chars.*
pub use Texts.*
pub use Trimming.*
pub use Words.{is_prefix}
unfoldable pub use Trimming.{starts_solid}
unfoldable pub use Words.{strip_prefix, contains_text, up_to, text_lines}
pub use Decimal.{
  show_uint-IsDigit, show_uint-is_empty, parse_uint-show_uint, Below, parse_uint-Below,
}
unfoldable pub use Decimal.{show_uint}
unfoldable pub use Chars.{
  text_eq, is_whitespace, trim_start, trim, char_bytes, byte_length, contains, split_once, split,
  is_alphanumeric, to_lower, parse_uint, lines, join,
}
pub use Prim.Native.Nat.{ℕ, zero, suc, ◌+◌, ◌-◌, ◌*◌, ◌/◌, ◌%◌, ◌^◌, ◌≤◌, ◌<◌, min}
pub use Prim.Native.String.{String}
pub use mathlib.Core.Path.{◌≡◌, refl, sym, ap, ◌∙◌}
pub use mathlib.Core.Logic.{◌≢◌, ◌↔◌, ◌⊎◌, inl, inr}
pub use mathlib.Core.Bool.{Bool, true, false, ◌&&◌, ◌||◌, not}
pub use mathlib.Core.Option.{Option, none, some}
pub use mathlib.Core.List.{List, [], ◌∷◌, ◌++◌, map, reverse}
pub use native.Mathlib.Omega.{arith}
