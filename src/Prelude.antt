-- ===== src/Prelude.antt =====
-- The names that the other modules share: numbers, lists, Boolean tests, bytes and the result type
-- of code that can throw.
pub mod Lists
pub mod Text
pub mod Maps
pub mod Failure
pub use Prim.Native.Nat.{ℕ, zero, suc, ◌+◌, ◌-◌, ◌*◌, ◌/◌, ◌%◌, ◌^◌, ◌≤◌, ◌<◌}
pub use mathlib.Core.Path.{◌≡◌, refl, sym, ap, ◌∙◌}
pub use mathlib.Core.Logic.{◌≢◌, ◌↔◌, ◌⊎◌, inl, inr}
pub use mathlib.Core.Bool.{Bool, true, false, not, ◌&&◌, ◌||◌}
pub use mathlib.Core.Option.{Option, none, some}
pub use mathlib.Core.List.{List, [], ◌∷◌, ◌++◌, append-nil, append_assoc}
pub use native.Mathlib.Omega.{arith}
pub use Text.{
  ltb, leb, ◌==◌, if◌then◌else◌, Bool-cases, Bytes, codes, bytes_eq, bytes_eq_iff, if-case, both,
}
pub use Lists.{
  length, length-append, All, All-append, Member, here, there, Member-left, Member-right, count,
  count-append,
}
pub use Failure.{
  Outcome, ok, parse_error, fault, Fault, assertion, logic_error, uninitialised, null_pointer,
  uncaught, out_of_fuel, ◌>>=◌,
}
