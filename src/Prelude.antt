-- ===== src/Prelude.antt =====
-- The names that the other modules share: the libraries', passed on, and those of the children.
mod Tests
mod Lists
mod Equality
mod Arrays
pub use Tests.{ltb, leb, if◌then◌else◌, ltb→lt, leb→le, Bool-cases, Option-cases}
pub use Lists.{
  length, length-append, append_nil, append_one, take, length-take-le, any, find, last?, All,
  All-append,
}
unfoldable pub use Lists.{select}
pub use Equality.{
  Eq, ◌==◌, eq_iff, eq_refl, nat_eq, Bytes, bytes_eq_iff, bytes_instance, codes, is_value, is_other,
}
pub use Arrays.{
  IsBytes, bytes_of-IsBytes, number_of-bytes_of, length-bytes_of, drop, take-append, drop-append,
}
unfoldable pub use Arrays.{bytes_of, number_of}
unfoldable pub use Equality.{bytes_eq}
pub use Prim.Native.Nat.{ℕ, zero, suc, ◌+◌, ◌-◌, ◌*◌, ◌/◌, ◌%◌, ◌^◌, ◌≤◌, ◌<◌}
pub use mathlib.Core.Path.{◌≡◌, refl, sym, ap, ◌∙◌}
pub use mathlib.Core.Logic.{◌≢◌, ◌↔◌, ◌⊎◌, inl, inr}
pub use mathlib.Core.Bool.{Bool, true, false, not, ◌&&◌, ◌||◌}
pub use mathlib.Core.Option.{Option, none, some}
pub use mathlib.Core.List.{List, [], ◌∷◌, ◌++◌, map}
pub use native.Mathlib.Omega.{arith}
