-- ===== src/Base.antt =====
-- The names that the other modules share: the libraries', passed on, and those of the children.
mod Tests
mod Lists
mod Results
mod Text
mod Space
mod Sort
pub mod Utf8
pub use Tests.*
pub use Lists.*
pub use Results.*
pub use Text.{
  Bytes, codes, same, same_iff, same_refl, strip_prefix-eq_some, starts_with_iff,
  split_once-eq_some, split_once-Absent, Absent, length-strip_prefix, length-find_text,
}
unfoldable pub use Text.{
  strip_prefix, starts_with, contains_byte, split_once, split_on, lower, upper, to_lower, to_upper,
  eq_ignore_case, is_digit, all_digits, find_text,
}
pub use Sort.{count, count-append, count-sort_by, All-sort_by}
unfoldable pub use Sort.{text_le, dedup, sort_by}
pub use Space.{length-trim_start, is_ascii_space, trim_start-gap}
unfoldable pub use Space.{trim_start, trim_end, trim}
pub use Prim.Native.Nat.{ℕ, zero, suc, ◌+◌, ◌-◌, ◌*◌, ◌/◌, ◌%◌, ◌^◌, ◌≤◌, ◌<◌}
pub use Prim.Native.String.{String}
pub use mathlib.Core.Path.{◌≡◌, refl, sym, ap, ◌∙◌, subst, fun_ext}
pub use mathlib.Core.Logic.{◌≢◌, ◌↔◌, ◌⊎◌, inl, inr}
pub use mathlib.Core.Bool.{Bool, true, false, not, ◌&&◌, ◌||◌}
pub use mathlib.Core.Option.{Option, none, some}
pub use mathlib.Core.List.{List, [], ◌∷◌, ◌++◌, map, reverse, append-nil, append_assoc}
pub use native.Mathlib.Omega.{arith}
