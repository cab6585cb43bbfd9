-- ===== src/Base.antt =====
-- The names that all modules share: the libraries', passed on, and those of the children.
mod Tests
mod Int
mod Dicts
mod Messages
mod Strings
mod Lists
mod Paths
mod Words
pub use Tests.*
pub use Int.*
pub use Dicts.*
pub use Messages.*
pub use Strings.*
pub use Lists.*
pub use Paths.*
pub use Words.*
unfoldable pub use Tests.{contains}
unfoldable pub use Int.{◌+ℤ◌, leb_ℤ, ltb_ℤ, tenths}
unfoldable pub use Dicts.{lookup, insert, erase, member, add_key, discard}
unfoldable pub use Messages.{push}
unfoldable pub use Strings.{codes, lower, starts_with, infix_of, contains_text}
unfoldable pub use Paths.{
  has_prefix, after_equals, append, ends_with_slash, is_abs, join_path, rstrip_slash, has_char,
  basename, has_suffix,
}
unfoldable pub use Words.{
  is_space, lstrip, rstrip, strip, before, after_last, after_scheme, exchange, lower_text,
}
unfoldable pub use Lists.{filter, any, push_all, mem, sum}
pub use Prim.Native.Nat.{ℕ, zero, suc, ◌+◌, ◌-◌, ◌*◌, ◌/◌, ◌%◌, ◌≤◌, ◌<◌, min, max}
pub use Prim.Native.String.{String}
pub use mathlib.Core.Path.{◌≡◌, refl, sym, ap, ◌∙◌}
pub use mathlib.Core.Logic.{◌≢◌, ◌↔◌, ◌⊎◌, inl, inr, ⊎_elim}
pub use mathlib.Core.Bool.{Bool, true, false, not, ◌&&◌, ◌||◌}
pub use mathlib.Core.Option.{Option, none, some}
pub use mathlib.Core.List.{List, [], ◌∷◌, ◌++◌, map, Memᴰ}
pub use native.Mathlib.Omega.{arith}
pub use text.Mathlib.TextEquality.{eq_iff}
pub use text.Mathlib.TextPositions.{eq_refl}
