-- ===== src/Prelude.antt =====
-- The names that the other modules share: the libraries', passed on, and those of the children.
mod Tests
mod Lists
mod Results
mod Dicts
mod Ints
mod Texts
mod Tables
mod Numerals
mod Words
pub use Tests.*
pub use Lists.*
pub use Results.*
pub use Ints.*
pub use Texts.{
  truthy, nonempty, IsUnique, contains-append, contains-remove_ne, contains-remove_self,
  contains-remove-false, remove-IsUnique, append-IsUnique, remove-append_self,
}
pub use Tables.{Table, find-put}
pub use Numerals.{join_texts, text_length}
unfoldable pub use Numerals.{decimal, text_take}
unfoldable pub use Words.{lower, strip, text_drop, ends_with}
unfoldable pub use Tables.{find, put}
unfoldable pub use Texts.{contains, remove}
pub use Dicts.{
  Dict, has, lookup-insert, lookup-erase, lookup-insert_self, lookup-erase_self, lookup-insert_ne,
  lookup-erase_ne, has-insert, has-erase, has-erase_self, contains-keys, erase-IsUnique,
  insert-IsUnique,
}
unfoldable pub use Dicts.{lookup, insert, erase, keys, values}
pub use Prim.Native.Nat.{ℕ, zero, suc, ◌+◌, ◌-◌, ◌*◌, ◌/◌, ◌%◌, ◌≤◌, ◌<◌}
pub use Prim.Native.String.{String}
pub use mathlib.Core.Path.{◌≡◌, refl, sym, ap, ◌∙◌}
pub use mathlib.Core.Logic.{◌≢◌, ◌↔◌, ◌⊎◌, inl, inr}
pub use mathlib.Core.Bool.{Bool, true, false, not, ◌&&◌, ◌||◌}
pub use mathlib.Core.Option.{Option, none, some}
pub use mathlib.Core.List.{List, [], ◌∷◌, ◌++◌, map}
pub use native.Mathlib.Omega.{arith}
pub use text.Mathlib.Text.{◌==◌ as str_eq, starts_with}
pub use text.Mathlib.TextEquality.{eq_iff}
pub use text.Mathlib.TextPositions.{eq_refl}
