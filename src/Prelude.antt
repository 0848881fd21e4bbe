-- ===== src/Prelude.antt =====
-- The names that all modules share: the libraries' names, passed on, with Boolean tests on numbers,
-- text as lists of character codes, and the table operations that the SQL statements use.
mod Tests
mod Texts
pub mod Rows
pub use Tests.*
pub use Texts.{Text, lower, lower_code, contains, take, drop, slice, length, remove}
unfoldable pub use Texts.{text_eq}
pub use Texts.{text_eq_iff, text_eq_refl, lower-lower}
pub use Rows.*
pub use Prim.Native.Nat.{ℕ, zero, suc, ◌+◌, ◌-◌, ◌*◌, ◌/◌, ◌%◌, ◌^◌, ◌≤◌, ◌<◌, min, max}
pub use mathlib.Core.Path.{◌≡◌, refl, sym, subst, ap, ◌∙◌}
pub use mathlib.Core.Logic.{◌≢◌, ◌↔◌, ◌⊎◌, inl, inr}
pub use mathlib.Core.Bool.{Bool, true, false, not, ◌&&◌, ◌||◌}
pub use mathlib.Core.Option.{Option, none, some}
pub use mathlib.Core.List.{List, [], ◌∷◌, ◌++◌, map}
pub use native.Mathlib.Omega.{arith}
