-- ===== src/Consts/Wraps.antt =====
-- Sums, differences and products of constants (model/IntConst.cc, FOLDA) against the arithmetic of words.
use crack.Consts.Fold.{
  Folded, folded, undefined, signed_result, apply, fold_a, fold_add, fold_sub, fold_mul,
}
use crack.Consts.Signed.{
  to_signed, word_mod, half, ◌+ℤ◌, ◌-ℤ◌, ◌*ℤ◌, differ, magnitude, is_negative, with_sign,
}
use crack.Consts.{IntConst}
use crack.Prelude.{
  ℕ, ◌+◌, ◌-◌, ◌*◌, ◌%◌, ◌<◌, ltb, leb, Bool, true, false, not, ◌&&◌, if◌then◌else◌, some, ◌≡◌, ap,
  ◌∙◌, Bool-cases, inl, inr, arith,
}

-- The sign bit of a word.
abbrev pub high : ℕ → Bool
high v = leb half v

-- How far a word is from 0, read with its sign.
abbrev pub size : ℕ → ℕ
size v = if high v then word_mod - v else v

-- The constant with that word and no flag.
abbrev pub word : ℕ → IntConst
word v = record { val = v; req_unsigned = false; uneg = false }

abbrev pub unless : Bool → ℕ → Folded
unless overflows v = if overflows then undefined else folded (word v)

-- The operands agree in their sign bits, and the sum does not.
abbrev pub sum_overflows : ℕ → ℕ → Bool
sum_overflows v w = not (differ (high v) (high w)) && differ (high ((v + w) % word_mod)) (high v)

-- The operands differ in their sign bits, and the difference has not that of the first.
abbrev pub difference_overflows : ℕ → ℕ → Bool
difference_overflows v w =
    differ (high v) (high w) && differ (high ((v + word_mod - w) % word_mod)) (high v)

-- The lowest number is one further from 0 than the highest.
abbrev pub product_overflows : ℕ → ℕ → Bool
product_overflows v w =
    if differ (high v) (high w) then ltb half (size v * size w) else leb half (size v * size w)

sum_words :
    (v w : ℕ)
    → v < word_mod
    → w < word_mod
    → signed_result (to_signed v +ℤ to_signed w) ≡ unless (sum_overflows v w) ((v + w) % word_mod)
unfolding ◌+ℤ◌
sum_words v w h k = ground arith

difference_words :
    (v w : ℕ)
    → v < word_mod
    → w < word_mod
    → signed_result (to_signed v -ℤ to_signed w)
      ≡ unless (difference_overflows v w) ((v + word_mod - w) % word_mod)
unfolding ◌-ℤ◌
difference_words v w h k = ground arith

-- The word of a number that is that far from 0.
abbrev wrapped : Bool → ℕ → ℕ
wrapped negative n = if negative then (word_mod - n % word_mod) % word_mod else n % word_mod

with_sign_result :
    (s : Bool) (n : ℕ)
    → signed_result (with_sign s n) ≡ unless (if s then ltb half n else leb half n) (wrapped s n)
with_sign_result true n = ground arith
with_sign_result false n = ground arith

is_negative-to_signed : (v : ℕ) → v < word_mod → is_negative (to_signed v) ≡ high v
is_negative-to_signed v h = ground arith

magnitude-to_signed : (v : ℕ) → v < word_mod → magnitude (to_signed v) ≡ size v
magnitude-to_signed v h = ground arith

-- A product with one factor counted down from the modulus, and one with both.
down_one :
    (v x w : ℕ) → v + x ≡ word_mod → (word_mod - (x * w) % word_mod) % word_mod ≡ v * w % word_mod
down_one v x w e = omega (arith, ap (λ (t : ℕ). t * w) e)

down_both :
    (v x w y : ℕ) → v + x ≡ word_mod → w + y ≡ word_mod → x * y % word_mod ≡ v * w % word_mod
down_both v x w y e k = omega (arith, ap (λ (t : ℕ). t * y) e, ap (λ (t : ℕ). v * t) k)

down_other :
    (v w y : ℕ) → w + y ≡ word_mod → (word_mod - (v * y) % word_mod) % word_mod ≡ v * w % word_mod
down_other v w y e = omega (arith, ap (λ (t : ℕ). v * t) e)

product_wrapped :
    (v w : ℕ)
    → v < word_mod
    → w < word_mod
    → wrapped (differ (high v) (high w)) (size v * size w) ≡ v * w % word_mod
product_wrapped v w h k = elim (Bool-cases (high v)) [
  | inl e ↦ elim (Bool-cases (high w)) [
    | inl f ↦ rw (e, f) (down_both v (word_mod - v) w (word_mod - w) (omega arith) (omega arith))
    | inr f ↦ rw (e, f) (down_one v (word_mod - v) w (omega arith))
  ]
  | inr e ↦ elim (Bool-cases (high w)) [
    | inl f ↦ rw (e, f) (down_other v w (word_mod - w) (omega arith))
    | inr f ↦ rw (e, f)
  ]
]

product_words :
    (v w : ℕ)
    → v < word_mod
    → w < word_mod
    → signed_result (to_signed v *ℤ to_signed w) ≡ unless (product_overflows v w) (v * w % word_mod)
unfolding ◌*ℤ◌
product_words v w h k =
    ap (λ z. signed_result z)
      (ap (λ s. with_sign s (magnitude (to_signed v) * magnitude (to_signed w)))
          (ap (λ s. differ s (is_negative (to_signed w))) (is_negative-to_signed v h)
            ∙ ap (differ (high v)) (is_negative-to_signed w k))
        ∙ ap (with_sign (differ (high v) (high w))) (
            ap (λ m. m * magnitude (to_signed w)) (magnitude-to_signed v h)
            ∙ ap (λ m. size v * m) (magnitude-to_signed w k)))
    ∙ with_sign_result (differ (high v) (high w)) (size v * size w)
    ∙ ap (unless (product_overflows v w)) (product_wrapped v w h k)

-- The sum, the difference and the product of two constants of 64 bits are those of their words modulo
-- 2 to the 64, with both flags off; they are undefined exactly where a signed word overflows: a sum if
-- the operands agree in their sign bits and the result does not agree with them, a difference if the
-- operands do not agree and the result does not agree with the first, a product if it is further from
-- 0 than the lowest number where the sign bits differ, and than the highest where they agree.
pub fold_add-fold_sub-fold_mul :
    (c o : IntConst)
    → c.val < word_mod
    → o.val < word_mod
    → (fold_add c (some o) ≡ unless (sum_overflows c.val o.val) ((c.val + o.val) % word_mod))
      × (fold_sub c (some o)
          ≡ unless (difference_overflows c.val o.val) ((c.val + word_mod - o.val) % word_mod))
      × (fold_mul c (some o) ≡ unless (product_overflows c.val o.val) (c.val * o.val % word_mod))
unfolding fold_add fold_sub fold_mul fold_a apply
fold_add-fold_sub-fold_mul c o h k =
    (sum_words c.val o.val h k, difference_words c.val o.val h k, product_words c.val o.val h k)
