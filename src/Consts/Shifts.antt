-- ===== src/Consts/Shifts.antt =====
-- The invariant of constants under the operators of two operands and the negation.
use Prim.Native.Nat.{bit_and, bit_or, bit_xor}
use crack.Consts.Fold.{
  Folded, folded, signed_result, Arith, Division, apply, divide, fold_a, fold_add, fold_sub,
  fold_mul, fold_div_s, fold_s_div, fold_s_rem, fold_u_div, fold_u_rem, fold_b, fold_or, fold_and,
  fold_xor, fold_neg, fold_a_shr, fold_l_shr, shift_signed, in_width, op_add, op_sub, op_mul,
  op_div, op_rem,
}
use crack.Consts.Signed.{ℤ, pos, word_mod, half, in_int64, to_word-lt, ◌-ℤ◌, differ}
use crack.Consts.{IntConst, sval, create_u, IsWell}
use crack.Prelude.{
  ℕ, ◌-◌, ◌^◌, ◌<◌, ◌==◌, Bool, false, ◌&&◌, ◌||◌, Bool-cases, Option, some, none, inl, inr, arith,
}
use native.Mathlib.Nat.{div-le_self, mod-le}

abbrev pub Keeps : Folded → Type 0
Keeps (folded r) = IsWell r
Keeps _ = Unit {0}

signed-Keeps : (z : ℤ) → Keeps (signed_result z)
signed-Keeps z = elim (Bool-cases (in_int64 z)) [
  | inl e ↦ rw e (record { fits = to_word-lt z; needs = λ h. cc })
  | inr e ↦ rw e tt
]

arith-Keeps : (op : Arith) (c : IntConst) (o : Option IntConst) → Keeps (fold_a op c o)
unfolding fold_a
arith-Keeps op c none = tt
arith-Keeps op c (some o) = signed-Keeps (apply op (sval c) (sval o))

div_s-Keeps : (op : Division) (c : IntConst) (o : Option IntConst) → Keeps (fold_div_s op c o)
unfolding fold_div_s
div_s-Keeps op c none = tt
div_s-Keeps op c (some o) = elim (Bool-cases (o.val == 0)) [
  | inl e ↦ rw e tt
  | inr e ↦ elim (Bool-cases (c.val == half && o.val == word_mod - 1)) [
    | inl f ↦ rw (e, f) tt
    | inr f ↦ rw (e, f) (signed-Keeps (divide op (sval c) (sval o)))
  ]
]

create_u-IsWell : (v : ℕ) → v < word_mod → IsWell (create_u v)
create_u-IsWell v h = record { fits = h; needs = λ e. ground arith }

u_div-Keeps : (c : IntConst) (o : Option IntConst) → IsWell c → Keeps (fold_u_div c o)
unfolding fold_u_div
u_div-Keeps c none w = tt
u_div-Keeps c (some o) w = elim (Bool-cases (o.val == 0)) [
  | inl e ↦ rw e tt
  | inr e ↦ rw e (create_u-IsWell _ (omega (arith, div-le_self c.val o.val, w.fits)))
]

u_rem-Keeps : (c : IntConst) (o : Option IntConst) → IsWell c → Keeps (fold_u_rem c o)
unfolding fold_u_rem
u_rem-Keeps c none w = tt
u_rem-Keeps c (some o) w = elim (Bool-cases (o.val == 0)) [
  | inl e ↦ rw e tt
  | inr e ↦ rw e (create_u-IsWell _ (omega (arith, mod-le c.val o.val, w.fits)))
]

b-Keeps :
    (op : ℕ → ℕ → ℕ) (flag : Bool → Bool → Bool) (c : IntConst) (o : Option IntConst)
    → Keeps (fold_b op flag c o)
unfolding fold_b
b-Keeps op flag c none = tt
b-Keeps op flag c (some o) = record { fits = omega arith; needs = λ e. ground arith }

neg-Keeps : (c : IntConst) → Keeps (fold_neg c)
unfolding fold_neg
neg-Keeps c = signed-Keeps (pos 0 -ℤ sval c)

shifted-IsWell :
    (c : IntConst) (v : ℕ)
    → v < word_mod
    → IsWell (record { val = v; req_unsigned = false; uneg = c.uneg })
shifted-IsWell c v h = record { fits = h; needs = λ e. cc }

l_shr-Keeps : (c : IntConst) (o : Option IntConst) → IsWell c → Keeps (fold_l_shr c o)
unfolding fold_l_shr
l_shr-Keeps c none w = tt
l_shr-Keeps c (some o) w = elim (Bool-cases (in_width o)) [
  | inl e ↦ rw e (shifted-IsWell c _ (omega (arith, div-le_self c.val (2 ^ o.val), w.fits)))
  | inr e ↦ rw e tt
]

a_shr-Keeps : (c : IntConst) (o : Option IntConst) → IsWell c → Keeps (fold_a_shr c o)
unfolding fold_a_shr
a_shr-Keeps c none w = tt
a_shr-Keeps c (some o) w = elim (Bool-cases (in_width o)) [
  | inl e ↦ rw e (elim (Bool-cases c.req_unsigned) [
    | inl f ↦ rw f (shifted-IsWell c _ (omega (arith, div-le_self c.val (2 ^ o.val), w.fits)))
    | inr f ↦ rw f (shifted-IsWell c _ (to_word-lt (shift_signed (sval c) o.val)))
  ])
  | inr e ↦ rw e tt
]

-- The operators with two operands, but for the left shift.
pub data Binary : Type 0 where
  by_add by_sub by_mul by_s_div by_s_rem by_u_div by_u_rem by_or by_and by_xor by_a_shr by_l_shr :
      Binary

unfoldable pub run : Binary → IntConst → Option IntConst → Folded
unfolding fold_add fold_sub fold_mul fold_s_div fold_s_rem fold_or fold_and fold_xor
run by_add = fold_add
run by_sub = fold_sub
run by_mul = fold_mul
run by_s_div = fold_s_div
run by_s_rem = fold_s_rem
run by_u_div = fold_u_div
run by_u_rem = fold_u_rem
run by_or = fold_or
run by_and = fold_and
run by_xor = fold_xor
run by_a_shr = fold_a_shr
run by_l_shr = fold_l_shr

-- A constant of 64 bits that is marked as needing an unsigned type only when it has the high bit
-- keeps that through the negation and through every operator of two operands but the left shift,
-- wherever these give a constant.
pub run-Keeps :
    (b : Binary) (c : IntConst) (o : Option IntConst)
    → IsWell c
    → Keeps (run b c o) × Keeps (fold_neg c)
unfolding run fold_add fold_sub fold_mul fold_s_div fold_s_rem fold_or fold_and fold_xor
run-Keeps b c o w = (go b, neg-Keeps c)
  where
    go : (b : Binary) → Keeps (run b c o)
    go by_add = arith-Keeps op_add c o
    go by_sub = arith-Keeps op_sub c o
    go by_mul = arith-Keeps op_mul c o
    go by_s_div = div_s-Keeps op_div c o
    go by_s_rem = div_s-Keeps op_rem c o
    go by_u_div = u_div-Keeps c o w
    go by_u_rem = u_rem-Keeps c o w
    go by_or = b-Keeps bit_or (λ a b. a || b) c o
    go by_and = b-Keeps bit_and (λ a b. a && b) c o
    go by_xor = b-Keeps bit_xor differ c o
    go by_a_shr = a_shr-Keeps c o w
    go by_l_shr = l_shr-Keeps c o w
