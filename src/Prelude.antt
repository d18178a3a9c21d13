-- ===== src/Prelude.antt =====
-- Names that the other modules share: the libraries', passed on, and those of the children.
-- Go's strings are lists of bytes, its maps are association lists with one entry for a key, its
-- sizes, counters and times are native numbers.
mod Tests
mod Lists
mod Strings
mod Maps
pub use Tests.*
pub use Lists.*
pub use Strings.*
unfoldable pub use Strings.{◌==◌, has_suffix, trim_suffix}
pub use Maps.*
unfoldable pub use Maps.{lookup, insert, remove, has_key, index}
pub use Prim.Native.Nat.{ℕ, zero, suc, ◌+◌, ◌-◌, ◌*◌, ◌/◌, ◌%◌, ◌^◌, ◌≤◌, ◌<◌}
pub use mathlib.Core.Path.{◌≡◌, refl, sym, ap, subst, ◌∙◌}
pub use mathlib.Core.Logic.{◌≢◌, ◌↔◌, ◌⊎◌, inl, inr}
pub use mathlib.Core.Bool.{Bool, true, false, not, ◌&&◌, ◌||◌}
pub use mathlib.Core.Option.{Option, none, some}
pub use mathlib.Core.List.{List, [], ◌∷◌, ◌++◌, map, append_assoc}
pub use native.Mathlib.Omega.{arith}
