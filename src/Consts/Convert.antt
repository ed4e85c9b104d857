-- ===== src/Consts/Convert.antt =====
-- IntConst::convert and selectType (model/IntConst.cc). Types are their addresses.
use crack.Consts.Signed.{ℤ, pos, negsuc, is_negative, word_mod}
use crack.Consts.{IntConst, sval}
use crack.Prelude.{
  ℕ, ◌+◌, ◌-◌, ◌%◌, ◌^◌, ltb, leb, ◌==◌, Bool, false, not, ◌&&◌, ◌||◌, if◌then◌else◌,
}

-- The primitive types of a Construct, and the widths of int and intz.
pub record Primitives : Type 0 where
  pub int64_type : ℕ
  pub int_type : ℕ
  pub intz_type : ℕ
  pub uint64_type : ℕ
  pub uint_type : ℕ
  pub uintz_type : ℕ
  pub int32_type : ℕ
  pub int16_type : ℕ
  pub float32_type : ℕ
  pub float64_type : ℕ
  pub float_type : ℕ
  pub uint32_type : ℕ
  pub uint16_type : ℕ
  pub byte_type : ℕ
  pub int_size : ℕ
  pub intz_size : ℕ

-- The branches of the source's ladder.
pub data Target : Type 0 where
  to_int64 to_uint64 to_int32 to_int16 to_float to_uint32 to_uint16 to_byte to_pdnt : Target
  to_other : Target

unfoldable pub classify : Primitives → ℕ → Target
classify p t =
    if t == p.int64_type
      || (t == p.int_type && p.int_size == 64)
      || (t == p.intz_type && p.intz_size == 64)
    then to_int64
    else if t == p.uint64_type || (t == p.uint_type && p.int_size == 64)
    then to_uint64
    else if t == p.int32_type || t == p.int_type || t == p.intz_type
    then to_int32
    else if t == p.int16_type
    then to_int16
    else if t == p.float32_type || t == p.float64_type || t == p.float_type
    then to_float
    else if t == p.uint32_type || t == p.uint_type || t == p.uintz_type
    then to_uint32
    else if t == p.uint16_type
    then to_uint16
    else if t == p.byte_type
    then to_byte
    else if t == p.int_type || t == p.uint_type || t == p.intz_type || t == p.uintz_type
    then to_pdnt
    else to_other

-- `sval > n`, and `sval < -n`
abbrev pub above : ℕ → ℤ → Bool
above n (pos v) = ltb n v
above n (negsuc v) = false

abbrev pub below : ℕ → ℤ → Bool
below n (pos v) = false
below n (negsuc v) = leb n v

-- Whether the branch returns null. In the branch of uint32 `UINT32_MAX + 1` is an unsigned int, 0; a
-- comparison with a uint64_t reads `sval` without its sign.
unfoldable pub blocks : Target → IntConst → Bool
blocks to_int64 c = c.req_unsigned
blocks to_uint64 c = not (c.req_unsigned || c.uneg) && is_negative (sval c)
blocks to_int32 c = c.req_unsigned || above (2 ^ 31 - 1) (sval c) || below (2 ^ 31) (sval c)
blocks to_int16 c = c.req_unsigned || above (2 ^ 15 - 1) (sval c) || below (2 ^ 15) (sval c)
blocks to_uint32 c =
    (c.uneg
      && (ltb c.val ((word_mod - (2 ^ 32 - 1 + 1) % 2 ^ 32) % word_mod)
          || not (is_negative (sval c))))
    || (not c.uneg && ltb (2 ^ 32 - 1) c.val)
blocks to_uint16 c =
    (c.uneg && (ltb c.val (word_mod - (2 ^ 16 - 1 + 1)) || not (is_negative (sval c))))
    || (not c.uneg && ltb (2 ^ 16 - 1) c.val)
blocks to_byte c =
    (c.uneg && (below (2 ^ 8 - 1 + 1) (sval c) || not (is_negative (sval c))))
    || (not c.uneg && ltb (2 ^ 8 - 1) c.val)
blocks _ c = false

pub data Converted : Type 0 where
  itself no_conversion : Converted
  -- createUIntConst, createIntConst and createFloatConst of the builder
  uint_const : ℕ → Converted
  int_const : ℤ → Converted
  float_const : ℤ → Converted
  -- Expr::convert
  by_type : Converted

abbrev pub emitted : IntConst → Converted
emitted c = if c.req_unsigned then uint_const c.val else int_const (sval c)

unfoldable pub convert_to : Target → IntConst → Converted
unfolding blocks
convert_to to_float c = float_const (sval c)
convert_to to_other c = by_type
convert_to k c = if blocks k c then no_conversion else emitted c

unfoldable pub convert : Primitives → ℕ → IntConst → ℕ → Converted
unfolding classify convert_to
convert p own c new = if new == own then itself else convert_to (classify p new) c

unfoldable pub select_type : Primitives → ℤ → ℕ
select_type p v = if above (2 ^ 31 - 1) v || below (2 ^ 31) v then p.int64_type else p.int_type
