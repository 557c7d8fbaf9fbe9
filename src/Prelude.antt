-- ===== src/Prelude.antt =====
-- Names shared by every module: the libraries', passed on, and those of the children.
mod Tests
mod Lists
mod Maps
pub mod Results
pub mod Int
pub mod Text
pub mod Counts
pub use Tests.*
pub use Lists.*
unfoldable pub use Maps.{lookup, insert}
pub use Maps.{Dict, elem, lookup-insert, lookup-insert_same}
pub use Prim.Native.Nat.{ℕ, zero, suc, ◌+◌, ◌-◌, ◌*◌, ◌/◌, ◌%◌, ◌^◌, ◌≤◌, ◌<◌, min, max}
pub use Prim.Native.String.{String}
pub use mathlib.Core.Path.{◌≡◌, refl, sym, ap, ◌∙◌, subst}
pub use mathlib.Core.Logic.{◌≢◌, ◌↔◌, ◌⊎◌, inl, inr}
pub use mathlib.Core.Bool.{Bool, true, false, not, ◌&&◌, ◌||◌}
pub use mathlib.Core.Option.{Option, none, some}
pub use mathlib.Core.List.{List, [], ◌∷◌, ◌++◌, map}
pub use native.Mathlib.Omega.{arith}
pub use text.Mathlib.Text.{◌==◌ as str_eq}
pub use text.Mathlib.TextEquality.{eq_iff}
