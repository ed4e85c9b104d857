-- ===== src/Location.antt =====
-- parser/Location.h: a place in a source file. The reference-counted pointer of the source is the
-- value itself here, since a location is never changed after it is made.
use Prim.Native.Nat.{ℕ}
use crack.Prelude.Text.{Bytes}
use mathlib.Core.List.{[]}

pub record Location : Type 0 where
  pub name : Bytes
  pub line_number : ℕ
  pub start_col : ℕ
  pub end_col : ℕ

-- The null location: its getters give the empty name and zeros.
abbrev pub no_location : Location
no_location = record { name = []; line_number = 0; start_col = 0; end_col = 0 }
