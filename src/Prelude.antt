-- ===== src/Prelude.antt =====
-- The names that the other modules share: the libraries', passed on, and those of the children.
mod Tests
mod Text
mod Int
mod Lists
mod Results
mod Dates
mod Decimal
mod Sets
mod ByteStrings
pub use Tests.*
pub use Int.*
pub use Sets.*
pub use Results.*
pub use Lists.{
  length, length-append, take, drop, take-append, drop-append, All, All-append, All-left, All-right,
  All-map,
}
unfoldable pub use Lists.{lookup, has}
unfoldable pub use ByteStrings.{eq_bytes}
pub use ByteStrings.{Bytes, eq_bytes-eq, eq_bytes_refl}
unfoldable pub use Decimal.{decimal_from, decimal}
pub use Decimal.{decimal_injective, split_digits}
unfoldable pub use Dates.{is_leap, days_in, is_date_chars, is_date}
unfoldable pub use Text.{is_space, drop_spaces, trim_space, contains_text, byte_length}
pub use Text.{chars, text_of}
pub use Prim.Native.Nat.{ℕ, zero, suc, ◌+◌, ◌-◌, ◌*◌, ◌/◌, ◌%◌, ◌^◌, ◌≤◌, ◌<◌}
pub use Prim.Native.String.{String}
pub use mathlib.Core.Path.{◌≡◌, refl, sym, ap, subst, ◌∙◌}
pub use mathlib.Core.Logic.{◌≢◌, ◌↔◌, ◌⊎◌, inl, inr}
pub use mathlib.Core.Bool.{Bool, true, false, ◌&&◌, ◌||◌, not}
pub use mathlib.Core.Option.{Option, none, some}
pub use mathlib.Core.List.{List, [], ◌∷◌, ◌++◌, map}
pub use native.Mathlib.Omega.{arith}
pub use text.Mathlib.Text.{◌==◌}
pub use text.Mathlib.TextEquality.{eq_iff}
pub use text.Mathlib.TextPositions.{eq_refl}
