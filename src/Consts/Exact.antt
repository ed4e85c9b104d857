-- ===== src/Consts/Exact.antt =====
-- The signed quotient and the signed remainder of constants (model/IntConst.cc, FOLDDIV).
use crack.Consts.Fold.{folded, divide, fold_div_s, fold_s_div, fold_s_rem}
use crack.Consts.Signed.{
  ℤ, pos, negsuc, to_signed, word_mod, half, in_int64, to_signed-to_word, quot, rem, ◌+ℤ◌, ◌*ℤ◌,
  with_sign, differ, is_negative, magnitude,
}
use crack.Consts.{IntConst, sval, create_s}
use native.Mathlib.Decide.{dec_lt}
use native.Mathlib.Nat.{div-add-mod, mul_comm, div-le_self, div-lt_self, mod-le, mod-lt}
use crack.Prelude.{
  ℕ, zero, suc, ◌+◌, ◌-◌, ◌*◌, ◌/◌, ◌%◌, ◌≤◌, ◌<◌, ◌==◌, Bool, true, false, not, ◌&&◌, Bool-cases,
  some, ◌≡◌, refl, sym, ap, ◌∙◌, inl, inr, arith,
}

with_sign_zero : (s : Bool) (n : ℕ) → n ≡ 0 → with_sign s n ≡ pos 0
with_sign_zero true n h = ground arith
with_sign_zero false n h = ground arith

with_sign_mul :
    (s : Bool) (n : ℕ) (b : ℤ)
    → with_sign s n *ℤ b ≡ with_sign (differ s (is_negative b)) (n * magnitude b)
unfolding ◌*ℤ◌
with_sign_mul false n b = refl
with_sign_mul true zero b =
    let none' : 0 * magnitude b ≡ 0 = omega arith in
    with_sign_zero (is_negative b) (0 * magnitude b) none'
    ∙ sym (with_sign_zero (not (is_negative b)) (0 * magnitude b) none')
with_sign_mul true (suc n) b = ground arith

with_sign_add : (s : Bool) (m n : ℕ) → with_sign s m +ℤ with_sign s n ≡ with_sign s (m + n)
unfolding ◌+ℤ◌
with_sign_add true m n = ground arith
with_sign_add false m n = ground arith

differ_twice : (a b : Bool) → differ (differ a b) b ≡ a
differ_twice true true = refl
differ_twice true false = refl
differ_twice false true = refl
differ_twice false false = refl

with_sign_own : (a : ℤ) → with_sign (is_negative a) (magnitude a) ≡ a
with_sign_own (pos n) = refl
with_sign_own (negsuc n) = ground arith

quot-rem : (a b : ℤ) → (quot a b *ℤ b) +ℤ rem a b ≡ a
unfolding quot rem
quot-rem a b =
    let s = is_negative a in
    let q = magnitude a / magnitude b in
    let r = magnitude a % magnitude b in
    let split : q * magnitude b + r ≡ magnitude a =
      ap (λ t. t + r) (mul_comm q (magnitude b)) ∙ div-add-mod (magnitude a) (magnitude b) in
    ap (λ z. z +ℤ with_sign s r)
      (with_sign_mul (differ s (is_negative b)) q b
        ∙ ap (λ t. with_sign t (q * magnitude b)) (differ_twice s (is_negative b)))
    ∙ with_sign_add s (q * magnitude b) r
    ∙ ap (with_sign s) split
    ∙ with_sign_own a

in_int64_lt : (s : Bool) (n : ℕ) → n < half → in_int64 (with_sign s n) ≡ true
in_int64_lt true n h = ground arith
in_int64_lt false n h = ground arith

in_int64_negative : (n : ℕ) → n ≤ half → in_int64 (with_sign true n) ≡ true
in_int64_negative n h = ground arith

magnitude-sval : (v : ℕ) → v < word_mod → magnitude (to_signed v) ≤ half
magnitude-sval v h = ground arith

-- A quotient of that magnitude is only reached by -1.
quot_lt :
    (v w : ℕ)
    → v < word_mod
    → w < word_mod
    → (v == half && w == word_mod - 1) ≡ false
    → is_negative (to_signed w) ≡ true
    → magnitude (to_signed v) / magnitude (to_signed w) < half
quot_lt v w h k e n =
    let a = magnitude (to_signed v) in
    let b = magnitude (to_signed w) in
    elim (dec_lt 1 b) [
      | yes big ↦ elim (dec_lt 0 a) [
        | yes p ↦ omega (arith, div-lt_self p big, magnitude-sval v h)
        | no p ↦ omega (arith, div-le_self a b)
      ]
      | no small ↦ let low : a < half = ground arith in omega (arith, div-le_self a b)
    ]

quot_in :
    (v w : ℕ)
    → v < word_mod
    → w < word_mod
    → (v == half && w == word_mod - 1) ≡ false
    → in_int64 (quot (to_signed v) (to_signed w)) ≡ true
unfolding quot
quot_in v w h k e = elim (Bool-cases (is_negative (to_signed w))) [
  | inl n ↦ in_int64_lt _ _ (quot_lt v w h k e n)
  | inr n ↦ by_sign (is_negative (to_signed v)) refl n
]
  where
    q_le : magnitude (to_signed v) / magnitude (to_signed w) ≤ half
    q_le =
        omega (
          arith,
          div-le_self (magnitude (to_signed v)) (magnitude (to_signed w)),
          magnitude-sval v h,
        )

    by_sign :
        (s : Bool)
        → is_negative (to_signed v) ≡ s
        → is_negative (to_signed w) ≡ false
        → in_int64 (quot (to_signed v) (to_signed w)) ≡ true
    by_sign true p n = rw (p, n) (in_int64_negative _ q_le)
    by_sign false p n =
        let low : magnitude (to_signed v) < half = ground arith in
        let less : magnitude (to_signed v) / magnitude (to_signed w) < half =
          omega (arith, div-le_self (magnitude (to_signed v)) (magnitude (to_signed w))) in
        in_int64_lt _ _ less

rem_in : (v w : ℕ) → v < word_mod → in_int64 (rem (to_signed v) (to_signed w)) ≡ true
unfolding rem
rem_in v w h = by_sign (is_negative (to_signed v)) refl
  where
    by_sign :
        (s : Bool)
        → is_negative (to_signed v) ≡ s
        → in_int64 (rem (to_signed v) (to_signed w)) ≡ true
    by_sign true p =
        let less : magnitude (to_signed v) % magnitude (to_signed w) ≤ half =
          omega (
            arith,
            mod-le (magnitude (to_signed v)) (magnitude (to_signed w)),
            magnitude-sval v h,
          ) in
        rw p (in_int64_negative _ less)
    by_sign false p =
        let low : magnitude (to_signed v) < half = ground arith in
        let less : magnitude (to_signed v) % magnitude (to_signed w) < half =
          omega (arith, mod-le (magnitude (to_signed v)) (magnitude (to_signed w))) in
        in_int64_lt _ _ less

magnitude-with_sign : (s : Bool) (n : ℕ) → magnitude (with_sign s n) ≡ n
magnitude-with_sign true n = ground arith
magnitude-with_sign false n = ground arith

rem_small : (a b : ℤ) → 0 < magnitude b → magnitude (rem a b) < magnitude b
unfolding rem
rem_small a b h =
    omega (
      arith,
      magnitude-with_sign (is_negative a) (magnitude a % magnitude b),
      mod-lt (magnitude a) h,
    )

nonzero : (w : ℕ) → w < word_mod → (w == 0) ≡ false → 0 < magnitude (to_signed w)
nonzero w h n = ground arith

-- Two constants of 64 bits of which the second is not 0, and which are not the lowest number and -1:
-- the signed quotient and the signed remainder are both folded, the quotient times the divisor and the
-- remainder make up the dividend, and the remainder is smaller than the divisor.
pub fold_s_div-fold_s_rem :
    (c o : IntConst)
    → c.val < word_mod
    → o.val < word_mod
    → (o.val == 0) ≡ false
    → (c.val == half && o.val == word_mod - 1) ≡ false
    → (q : IntConst) × (r : IntConst) × (fold_s_div c (some o) ≡ folded q)
      × (fold_s_rem c (some o) ≡ folded r)
      × ((sval q *ℤ sval o) +ℤ sval r ≡ sval c)
      × (magnitude (sval r) < magnitude (sval o))
unfolding fold_s_div fold_s_rem fold_div_s divide
fold_s_div-fold_s_rem c o h k n e =
    let q = quot (sval c) (sval o) in
    let r = rem (sval c) (sval o) in
    let q_in : in_int64 q ≡ true = quot_in c.val o.val h k e in
    let r_in : in_int64 r ≡ true = rem_in c.val o.val h in
    let q_is = to_signed-to_word q q_in in
    let r_is = to_signed-to_word r r_in in
    (
      create_s q,
      create_s r,
      rw (n, e, q_in) refl,
      rw (n, e, r_in) refl,
      ap (λ z. (z *ℤ sval o) +ℤ sval (create_s r)) q_is
          ∙ ap (λ z. (q *ℤ sval o) +ℤ z) r_is
          ∙ quot-rem (sval c) (sval o),
      rw r_is (rem_small (sval c) (sval o) (nonzero o.val k n)),
    )
