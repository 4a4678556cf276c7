-- ===== src/Prelude.antt =====
-- Names that every module shares: the libraries', passed on, and the Boolean tests and list
-- functions of the two children.
pub mod Tests
pub mod Lists
pub mod Int
pub mod Text
pub mod Totals
pub use Tests.{
  ltb, leb, eqb, if◌then◌else◌, Bool-cases, ltb→lt, leb→le, eqb→eq, and_true, not-true,
  Option-cases,
}
pub use Lists.{
  value_or, length, get_elem?, drop, any, keep_if, contains, insert_name, All, length-append,
  get_elem?-append_left, drop-nil, drop-cons, get_elem?-append_right, keep_if-append,
  keep_if-keep_if, All-append, append_nil, append_assoc',
}
pub use Prim.Native.Nat.{ℕ, zero, suc, ◌+◌, ◌-◌, ◌*◌, ◌/◌, ◌%◌, ◌^◌, ◌≤◌, ◌<◌}
pub use Prim.Native.String.{String}
pub use mathlib.Core.Path.{◌≡◌, refl, sym, ap, ◌∙◌}
pub use mathlib.Core.Logic.{◌≢◌, ◌↔◌, ◌⊎◌, inl, inr}
pub use mathlib.Core.Bool.{Bool, true, false, not, ◌&&◌, ◌||◌}
pub use mathlib.Core.Option.{Option, none, some}
pub use mathlib.Core.List.{List, [], ◌∷◌, ◌++◌, map}
pub use native.Mathlib.Omega.{arith}
pub use text.Mathlib.Text.{◌==◌}
pub use text.Mathlib.TextEquality.{eq_iff}
