-- ===== src/Consts/Signed.antt =====
-- Integers over the native numbers, and int64_t among them.
use crack.Prelude.{
  ℕ, suc, ◌+◌, ◌-◌, ◌*◌, ◌/◌, ◌%◌, ◌^◌, ◌<◌, ltb, leb, ◌==◌, Bool, true, false, not, if◌then◌else◌,
  ◌≡◌, arith,
}

-- `negsuc n` is -(n + 1).
pub data ℤ : Type 0 where
  pos : ℕ → ℤ
  negsuc : ℕ → ℤ

abbrev pub word_mod : ℕ
word_mod = 2 ^ 64

-- The values from here on are negative.
abbrev pub half : ℕ
half = 2 ^ 63

abbrev pub to_signed : ℕ → ℤ
to_signed w = if ltb w half then pos w else negsuc (word_mod - 1 - w)

abbrev pub to_word : ℤ → ℕ
to_word (pos n) = n % word_mod
to_word (negsuc n) = word_mod - 1 - n % word_mod

abbrev pub in_int64 : ℤ → Bool
in_int64 (pos n) = ltb n half
in_int64 (negsuc n) = ltb n half

abbrev pub is_negative : ℤ → Bool
is_negative (pos n) = false
is_negative (negsuc n) = true

abbrev pub magnitude : ℤ → ℕ
magnitude (pos n) = n
magnitude (negsuc n) = suc n

abbrev pub with_sign : Bool → ℕ → ℤ
with_sign negative n = if negative then (if n == 0 then pos 0 else negsuc (n - 1)) else pos n

abbrev pub sub_ℕ : ℕ → ℕ → ℤ
sub_ℕ a b = if leb b a then pos (a - b) else negsuc (b - a - 1)

abbrev pub pos_part : ℤ → ℕ
pos_part (pos n) = n
pos_part (negsuc n) = 0

abbrev pub neg_part : ℤ → ℕ
neg_part (pos n) = 0
neg_part (negsuc n) = suc n

infixl 65 ◌+ℤ◌ ◌-ℤ◌
infixl 70 ◌*ℤ◌
unfoldable pub ◌+ℤ◌ : ℤ → ℤ → ℤ
a +ℤ b = sub_ℕ (pos_part a + pos_part b) (neg_part a + neg_part b)

unfoldable pub ◌-ℤ◌ : ℤ → ℤ → ℤ
a -ℤ b = sub_ℕ (pos_part a + neg_part b) (neg_part a + pos_part b)

abbrev pub differ : Bool → Bool → Bool
differ true b = not b
differ false b = b

unfoldable pub ◌*ℤ◌ : ℤ → ℤ → ℤ
a *ℤ b = with_sign (differ (is_negative a) (is_negative b)) (magnitude a * magnitude b)

-- Division cuts towards zero, and the remainder has the sign of the dividend.
unfoldable pub quot : ℤ → ℤ → ℤ
quot a b = with_sign (differ (is_negative a) (is_negative b)) (magnitude a / magnitude b)

unfoldable pub rem : ℤ → ℤ → ℤ
rem a b = with_sign (is_negative a) (magnitude a % magnitude b)

-- Reading back a number that fits.
pub to_signed-to_word : (z : ℤ) → in_int64 z ≡ true → to_signed (to_word z) ≡ z
to_signed-to_word (pos n) h = ground arith
to_signed-to_word (negsuc n) h = ground arith

pub to_word-to_signed : (w : ℕ) → w < word_mod → to_word (to_signed w) ≡ w
to_word-to_signed w h = ground arith

pub to_signed_in : (w : ℕ) → w < word_mod → in_int64 (to_signed w) ≡ true
to_signed_in w h = ground arith

pub to_word-lt : (z : ℤ) → to_word z < word_mod
to_word-lt (pos n) = omega arith
to_word-lt (negsuc n) = omega arith
