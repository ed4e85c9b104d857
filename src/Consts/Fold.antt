-- ===== src/Consts/Fold.antt =====
-- Constant folding (model/IntConst.cc). A shift of a negative number is done on its
-- bits, as the compilers that build the program do it.
use Prim.Native.Nat.{bit_and, bit_or, bit_xor}
use crack.Consts.Signed.{
  ℤ, pos, negsuc, to_word, word_mod, half, in_int64, ◌+ℤ◌, ◌-ℤ◌, ◌*ℤ◌, quot, rem, differ,
}
use crack.Consts.{IntConst, sval, create_s, create_u}
use crack.Prelude.{
  ℕ, ◌+◌, ◌-◌, ◌*◌, ◌/◌, ◌%◌, ◌^◌, ltb, leb, ◌==◌, Bool, false, not, ◌&&◌, ◌||◌, if◌then◌else◌,
  Option, some, none,
}

pub data Folded : Type 0 where
  folded : IntConst → Folded
  -- the other operand is no integer constant
  not_const : Folded
  -- DivZeroError
  div_zero : Folded
  -- an overflow of int64_t, or a shift by a wrong amount
  undefined : Folded

-- `create` of a signed result.
abbrev pub signed_result : ℤ → Folded
signed_result z = if in_int64 z then folded (create_s z) else undefined

pub data Arith : Type 0 where
  op_add op_sub op_mul : Arith

unfoldable pub apply : Arith → ℤ → ℤ → ℤ
unfolding ◌+ℤ◌ ◌-ℤ◌ ◌*ℤ◌
apply op_add a b = a +ℤ b
apply op_sub a b = a -ℤ b
apply op_mul a b = a *ℤ b

-- FOLDA with `s`
unfoldable pub fold_a : Arith → IntConst → Option IntConst → Folded
unfolding apply
fold_a op c none = not_const
fold_a op c (some o) = signed_result (apply op (sval c) (sval o))

unfoldable pub fold_add : IntConst → Option IntConst → Folded
unfolding fold_a
fold_add c o = fold_a op_add c o

unfoldable pub fold_sub : IntConst → Option IntConst → Folded
unfolding fold_a
fold_sub c o = fold_a op_sub c o

unfoldable pub fold_mul : IntConst → Option IntConst → Folded
unfolding fold_a
fold_mul c o = fold_a op_mul c o

pub data Division : Type 0 where
  op_div op_rem : Division

unfoldable pub divide : Division → ℤ → ℤ → ℤ
unfolding quot rem
divide op_div a b = quot a b
divide op_rem a b = rem a b

-- FOLDDIV with `s`. The lowest number by -1 overflows, for the remainder too.
unfoldable pub fold_div_s : Division → IntConst → Option IntConst → Folded
unfolding divide
fold_div_s op c none = not_const
fold_div_s op c (some o) =
    if o.val == 0
    then div_zero
    else if c.val == half && o.val == word_mod - 1
    then undefined
    else signed_result (divide op (sval c) (sval o))

unfoldable pub fold_s_div : IntConst → Option IntConst → Folded
unfolding fold_div_s
fold_s_div c o = fold_div_s op_div c o

unfoldable pub fold_s_rem : IntConst → Option IntConst → Folded
unfolding fold_div_s
fold_s_rem c o = fold_div_s op_rem c o

-- FOLDDIV with `u`
unfoldable pub fold_u_div : IntConst → Option IntConst → Folded
fold_u_div c none = not_const
fold_u_div c (some o) = if o.val == 0 then div_zero else folded (create_u (c.val / o.val))

unfoldable pub fold_u_rem : IntConst → Option IntConst → Folded
fold_u_rem c none = not_const
fold_u_rem c (some o) = if o.val == 0 then div_zero else folded (create_u (c.val % o.val))

-- FOLDB: the operation on the words, on the flags, and HIBIT. The remainder is the width.
unfoldable pub fold_b : (ℕ → ℕ → ℕ) → (Bool → Bool → Bool) → IntConst → Option IntConst → Folded
fold_b op flag c none = not_const
fold_b op flag c (some o) =
    let v = op c.val o.val % word_mod in
    folded (record { val = v; req_unsigned = leb half v; uneg = flag c.uneg o.uneg })

unfoldable pub fold_or : IntConst → Option IntConst → Folded
unfolding fold_b
fold_or c o = fold_b bit_or (λ a b. a || b) c o

unfoldable pub fold_and : IntConst → Option IntConst → Folded
unfolding fold_b
fold_and c o = fold_b bit_and (λ a b. a && b) c o

unfoldable pub fold_xor : IntConst → Option IntConst → Folded
unfolding fold_b
fold_xor c o = fold_b bit_xor differ c o

unfoldable pub fold_neg : IntConst → Folded
unfolding ◌-ℤ◌
fold_neg c = signed_result (pos 0 -ℤ sval c)

unfoldable pub fold_bit_not : IntConst → IntConst
fold_bit_not c = record {
  val = word_mod - 1 - c.val;
  req_unsigned = c.req_unsigned;
  uneg = not c.uneg;
}

-- `sval >> n`
unfoldable pub shift_signed : ℤ → ℕ → ℤ
shift_signed (pos v) n = pos (v / 2 ^ n)
shift_signed (negsuc v) n = negsuc (v / 2 ^ n)

-- A shift that C++ defines: by 0 to 63.
abbrev pub in_width : IntConst → Bool
in_width o = ltb o.val 64

unfoldable pub fold_a_shr : IntConst → Option IntConst → Folded
unfolding shift_signed
fold_a_shr c none = not_const
fold_a_shr c (some o) =
    if in_width o
    then folded (record {
      val = if c.req_unsigned then c.val / 2 ^ o.val else to_word (shift_signed (sval c) o.val);
      req_unsigned = false;
      uneg = c.uneg;
    })
    else undefined

unfoldable pub fold_l_shr : IntConst → Option IntConst → Folded
fold_l_shr c none = not_const
fold_l_shr c (some o) =
    if in_width o
    then folded (record { val = c.val / 2 ^ o.val; req_unsigned = false; uneg = c.uneg })
    else undefined

-- HISET shifted right and masked: one bit of a word.
abbrev pub bit_of : ℕ → ℕ → Bool
bit_of w k = w / 2 ^ k % 2 == 1

-- The flag is computed once `o` is the result, so that HISET is shifted by the result and one; a
-- result outside -1 to 62 makes that shift undefined.
unfoldable pub fold_shl : IntConst → Option IntConst → Folded
fold_shl c none = not_const
fold_shl c (some o) =
    let v = c.val * 2 ^ o.val % word_mod in
    let k = (v + 1) % word_mod in
    let negative = c.uneg || (c.req_unsigned && leb half c.val) in
    if in_width o && ltb k 64
    then folded (record {
      val = v;
      req_unsigned = if negative then not (bit_of c.val (63 - k)) else bit_of c.val (63 - k);
      uneg = c.uneg;
    })
    else undefined
