-- ===== src/Base.antt =====
-- Names that the other modules share: the libraries', passed on, and those of the children.
mod Tests
mod Lists
mod Text
mod Space
mod Decimal
mod Runes
pub mod Bits
pub mod Trimmed
pub use Tests.*
pub use Lists.*
unfoldable pub use Text.{bytes_eq, has_prefix, has_suffix, cut_prefix}
unfoldable pub use Space.{trim_space}
pub use Text.{
  Bytes, codes, bytes_eq_iff, bytes_eq_refl, has_prefix-append, cut_prefix-append,
  cut_prefix-eq-some,
}
pub use Prim.Native.Nat.{
  ℕ, zero, suc, ◌+◌, ◌-◌, ◌*◌, ◌/◌, ◌%◌, ◌^◌, ◌≤◌, ◌<◌, min, bit_and, bit_or, bit_xor,
}
pub use Prim.Native.String.{String}
unfoldable pub use Runes.{rune_count}
unfoldable pub use Decimal.{format_int, parse_from}
pub use Decimal.{
  parse-format_int, format_int-injective, length-format_int, is_decimal, AllDecimal,
  format_int-AllDecimal,
}
pub use mathlib.Core.Path.{◌≡◌, refl, sym, ap, ap₂, ◌∙◌, subst, fun_ext}
pub use mathlib.Core.Logic.{◌≢◌, ◌↔◌, ◌⊎◌, inl, inr}
pub use mathlib.Core.Bool.{Bool, true, false, not, ◌&&◌, ◌||◌}
pub use mathlib.Core.Option.{Option, none, some}
pub use mathlib.Core.List.{List, [], ◌∷◌, ◌++◌, map, append_assoc, append-nil, reverse}
pub use native.Mathlib.Omega.{arith}
