-- ===== src/Prelude.antt =====
-- The names that the other modules share: the libraries', passed on, and those of the children.
mod Tests
mod Lists
pub mod Text
mod Results
mod Maps
pub mod Int
pub mod Errors
pub use Tests.*
pub use Lists.*
unfoldable pub use Lists.{select}
pub use Text.{Str, is_empty}
unfoldable pub use Text.{str, str_eq, has_prefix, contains, lower, trim_suffix_slash}
pub use Text.{str_eq_iff, str_eq_refl, str_eq_ne, str_eq_sym}
pub use Results.*
unfoldable pub use Results.{Ends}
pub use Maps.{Dict, HasKey}
unfoldable pub use Maps.{lookup, insert, merge, keep_keys, map_values}
pub use Maps.{
  lookup-insert, lookup-merge, lookup-keep_keys, lookup-map_values, dict_laws, or_else, lookup-nil,
}
pub use Prim.Native.Nat.{ℕ, zero, suc, ◌+◌, ◌-◌, ◌*◌, ◌/◌, ◌%◌, ◌^◌, ◌≤◌, ◌<◌}
pub use mathlib.Core.Path.{◌≡◌, refl, sym, ap, ◌∙◌, transport}
pub use mathlib.Core.Logic.{◌≢◌, ◌↔◌, ◌⊎◌, inl, inr}
pub use mathlib.Core.Bool.{Bool, true, false, not, ◌&&◌, ◌||◌}
pub use mathlib.Core.Option.{Option, none, some}
pub use mathlib.Core.List.{List, [], ◌∷◌, ◌++◌, map, append_assoc, append-nil}
pub use native.Mathlib.Omega.{arith}
