-- ===== src/Consts.antt =====
-- model/IntConst.cc: integer constants of 64 bits, their folding and their conversion.
pub mod Signed
pub mod Fold
pub mod Convert
pub mod Exact
pub mod Range
pub mod Shifts
pub mod Wraps
pub mod Unmarked
use crack.Prelude.{ℕ, ◌+◌, ◌-◌, ◌^◌, ◌≤◌, ◌<◌, ltb, leb, Bool, true, false, if◌then◌else◌, ◌≡◌}
use Signed.{ℤ, pos, to_signed, to_word, word_mod, half}

-- `val` is the union's `uval`; `sval` is its reading with a sign.
pub record IntConst : Type 0 where
  pub val : ℕ
  pub req_unsigned : Bool
  pub uneg : Bool

abbrev pub sval : IntConst → ℤ
sval c = to_signed c.val

-- `IntConst(type, int64_t)` and `IntConst(type, uint64_t)`
abbrev pub create_s : ℤ → IntConst
create_s z = record { val = to_word z; req_unsigned = false; uneg = false }

abbrev pub create_u : ℕ → IntConst
create_u v = record { val = v; req_unsigned = leb half v; uneg = false }

-- The number that a constant stands for.
abbrev pub meaning : IntConst → ℤ
meaning c = if c.req_unsigned then pos c.val else sval c

-- 64 bits, and "> INT64_MAX so requires unsigned 64".
pub record IsWell (c : IntConst) : Type 0 where
  pub fits : c.val < word_mod
  pub needs : c.req_unsigned ≡ true → half ≤ c.val
