-- ===== src/Base.antt =====
-- The names that the other modules share: the libraries', passed on, and those of the children.
mod Tests
mod Lists
mod Text
mod Int
mod Maps
mod Results
mod Numbers
mod Fields
pub use Prim.Native.Nat.{ℕ, zero, suc, ◌+◌, ◌-◌, ◌*◌, ◌/◌, ◌%◌, ◌^◌, ◌≤◌, ◌<◌}
pub use Prim.Native.String.{String}
pub use mathlib.Core.Path.{◌≡◌, refl, sym, ap, ◌∙◌}
pub use mathlib.Core.Logic.{◌≢◌, ◌↔◌, ◌⊎◌, inl, inr}
pub use mathlib.Core.Bool.{Bool, true, false, not, ◌&&◌, ◌||◌}
pub use mathlib.Core.Option.{Option, none, some}
pub use mathlib.Core.List.{List, [], ◌∷◌, ◌++◌, map, reverse}
pub use native.Mathlib.Omega.{arith}
pub use text.Mathlib.TextEquality.{eq_iff}
pub use Tests.{
  ltb, leb, nat_beq, if◌then◌else◌, nat_beq_iff, Bytes, bytes_beq_iff, Eq, ◌==◌, nat_eq, string_eq,
  bytes_eq, ltb→lt, lt→ltb, leb→le, tests, Bool-cases, Option-cases,
}
unfoldable pub use Tests.{bytes_beq}
pub use Lists.*
pub use Int.{ℤ, pos, negsuc, ltb_ℤ, leb_ℤ, is_ℕ, to_ℕ}
unfoldable pub use Int.{wrap_i64, duration_seconds, time_sub, is_longer}
unfoldable pub use Text.{
  bytes, has_prefix, drop_prefix, contains_text, to_lower, trim_space, cut, split, itoa,
}
pub use Results.{Checked, ok, err, ◌>>=◌, ◌>>◌, refuse_if, >>=-eq-ok, Checked-cases}
pub use Maps.{
  Table, size, one_if, any_value-lookup, found-insert, found-delete, lookup-insert, lookup-delete,
  Unique-insert, Unique-delete, tally-delete, tally-delete-le, tally-retain-le, tally-insert_new,
  tally-insert-le, tally-insert_present,
}
unfoldable pub use Maps.{tally, values, any_value, retain, lookup, insert, delete, Unique}
unfoldable pub use Numbers.{parse_int}
pub use Fields.{Lacks, cut-append, split-append, split-plain, append-cut, lacks, lacks-Lacks}
