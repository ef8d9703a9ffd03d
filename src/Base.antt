-- ===== src/Base.antt =====
-- Names that the other modules share: those of the libraries, passed on, and of three children:
-- Boolean tests, tables read and written by SQL statements, and texts.
mod Tests
pub mod Tables
mod Texts
pub use Tests.*
unfoldable pub use Tables.{
  update_where, select_where, delete_where, count_where, find_where, exists_where,
}
pub use Tables.{length, All}
unfoldable pub use Texts.{prefix_of, codes}
pub use Prim.Native.Nat.{ℕ, zero, suc, ◌+◌, ◌-◌, ◌*◌, ◌/◌, ◌%◌, ◌≤◌, ◌<◌, min, max}
pub use Prim.Native.String.{String}
pub use mathlib.Core.Path.{◌≡◌, refl, sym, ap, subst, ◌∙◌}
pub use mathlib.Core.Logic.{◌≢◌, ◌↔◌, ◌⊎◌, inl, inr}
pub use mathlib.Core.Bool.{Bool, true, false, not, ◌&&◌, ◌||◌}
pub use mathlib.Core.Option.{Option, none, some}
pub use mathlib.Core.List.{List, [], ◌∷◌, ◌++◌, map}
pub use native.Mathlib.Omega.{arith}
