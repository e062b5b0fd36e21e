-- ===== src/Prelude.antt =====
-- The names that the other modules share: the libraries', passed on, and those of the children.
pub mod Tests
pub mod Lists
pub mod Slices
pub mod Equality
pub mod Dict
pub use Tests.{
  ltb, leb, nat_beq, if◌then◌else◌, ltb→lt, lt→ltb, leb→le, nat_beq_iff, tests, Bool-cases, if_ind,
  Option-cases, some_inj,
}
pub use Lists.*
pub use Slices.*
pub use Equality.{Eq, ◌==◌, ==_iff, ==_refl, nat_eq, list_eq}
unfoldable pub use Dict.{lookup, insert, erase, has_key}
pub use Dict.{
  lookup-insert, lookup-insert_self, lookup-erase, has_key-insert, IsMap, insert-IsMap, insert_new,
  AreApart, AreApart-insert, AreApart-nil,
}
pub use Prim.Native.Nat.{ℕ, zero, suc, ◌+◌, ◌-◌, ◌*◌, ◌/◌, ◌%◌, ◌^◌, ◌≤◌, ◌<◌, min, max}
pub use mathlib.Core.Path.{◌≡◌, refl, sym, ap, ap₂, ◌∙◌, subst}
pub use mathlib.Core.Logic.{◌≢◌, ◌↔◌, ◌⊎◌, inl, inr}
pub use mathlib.Core.Bool.{Bool, true, false, not, ◌&&◌, ◌||◌}
pub use mathlib.Core.Option.{Option, none, some}
pub use mathlib.Core.List.{
  List, [], ◌∷◌, ◌++◌, map, reverse, append-nil, append_assoc, reverse-cons,
}
pub use native.Mathlib.Omega.{arith}
