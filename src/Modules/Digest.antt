-- ===== src/Modules/Digest.antt =====
-- util/SourceDigest.cc: a digest as text and back. The digest's bytes come from the hash (util/md5.c).
use crack.Prelude.{
  ℕ, zero, suc, ◌+◌, ◌-◌, ◌*◌, ◌/◌, ◌%◌, ◌<◌, ltb, leb, ◌==◌, Bool, false, ◌&&◌, ◌||◌,
  if◌then◌else◌, Option, some, none, [], ◌∷◌, length, All, Bytes, bytes_eq, ◌≡◌, refl, ap, ◌∙◌,
  arith,
}

abbrev pub digest_size : ℕ
digest_size = 16

-- A digit of `%02x`.
abbrev pub hex_digit : ℕ → ℕ
hex_digit v = if ltb v 10 then b'0' + v else b'a' + (v - 10)

unfoldable pub as_hex : Bytes → Bytes
as_hex [] = []
as_hex (d ∷ ds) = hex_digit (d / 16) ∷ hex_digit (d % 16) ∷ as_hex ds

-- The value of a character for `strtol` to the base 16.
abbrev pub digit_of : ℕ → Option ℕ
digit_of c =
    if leb b'0' c && leb c b'9'
    then some (c - b'0')
    else if leb b'a' c && leb c b'f'
    then some (c - b'a' + 10)
    else if leb b'A' c && leb c b'F'
    then some (c - b'A' + 10)
    else none

abbrev pub is_space : ℕ → Bool
is_space c = c == 32 || (leb 9 c && leb c 13)

abbrev pub or_zero : Option ℕ → ℕ
or_zero none = 0
or_zero (some v) = v

-- Both digits, or what stands before the first other character.
abbrev pub two_digits : Option ℕ → Option ℕ → ℕ
two_digits none low = 0
two_digits (some high) none = high
two_digits (some high) (some low) = high * 16 + low

-- `strtol` of two characters, as a byte: a space or a sign may come first.
abbrev pub byte_of : ℕ → ℕ → ℕ
byte_of a b =
    if is_space a || a == b'+'
    then or_zero (digit_of b)
    else if a == b'-'
    then (256 - or_zero (digit_of b)) % 256
    else two_digits (digit_of a) (digit_of b)

unfoldable pub read_pairs : Bytes → Bytes
read_pairs (a ∷ b ∷ cs) = byte_of a b ∷ read_pairs cs
read_pairs _ = []

unfoldable pub zeros : ℕ → Bytes
zeros zero = []
zeros (suc n) = 0 ∷ zeros n

unfoldable pub from_hex : Bytes → Bytes
unfolding read_pairs zeros
from_hex text = if length text == digest_size * 2 then read_pairs text else zeros digest_size

-- `memcmp` of digests.
abbrev pub same_digest : Bytes → Bytes → Bool
same_digest d e = bytes_eq d e

digit_back : (v : ℕ) → v < 16 → digit_of (hex_digit v) ≡ some v
digit_back v h = ground arith

no_plus : (v : ℕ) → v < 16 → (is_space (hex_digit v) || hex_digit v == b'+') ≡ false
no_plus v h = ground arith

no_minus : (v : ℕ) → v < 16 → (hex_digit v == b'-') ≡ false
no_minus v h = ground arith

unsigned :
    (s m : Bool) (x y : ℕ) (high low : Option ℕ)
    → s ≡ false
    → m ≡ false
    → (if s then x else if m then y else two_digits high low) ≡ two_digits high low
unsigned s m x y high low h k = rw (h, k) refl

pair_back : (d : ℕ) → d < 256 → byte_of (hex_digit (d / 16)) (hex_digit (d % 16)) ≡ d
pair_back d h =
    let high : d / 16 < 16 = omega arith in
    let low : d % 16 < 16 = omega arith in
    unsigned _ _ _ _ (digit_of (hex_digit (d / 16))) (digit_of (hex_digit (d % 16)))
      (no_plus (d / 16) high) (no_minus (d / 16) high)
    ∙ ap (λ x. two_digits x (digit_of (hex_digit (d % 16)))) (digit_back (d / 16) high)
    ∙ ap (two_digits (some (d / 16))) (digit_back (d % 16) low)
    ∙ omega arith

pairs_back : (ds : Bytes) → All (λ d. d < 256) ds → read_pairs (as_hex ds) ≡ ds
unfolding read_pairs as_hex
pairs_back [] h = refl
pairs_back (d ∷ ds) h = rw (pair_back d h.0, pairs_back ds h.1) refl

length-as_hex : (ds : Bytes) → length (as_hex ds) ≡ length ds * 2
unfolding as_hex
length-as_hex [] = refl
length-as_hex (d ∷ ds) = omega (arith, length-as_hex ds)

of_size : (text : Bytes) → length text ≡ digest_size * 2 → from_hex text ≡ read_pairs text
unfolding from_hex
of_size text h = rw h refl

abbrev pub IsDigest : Bytes → Type 0
IsDigest d = (length d ≡ digest_size) × All (λ b. b < 256) d

-- The text of a digest of 16 bytes has 32 characters, and is read as the digest.
pub from_hex-as_hex :
    (d : Bytes) → IsDigest d → (from_hex (as_hex d) ≡ d) × (length (as_hex d) ≡ digest_size * 2)
unfolding from_hex
from_hex-as_hex d h =
    let size : length (as_hex d) ≡ digest_size * 2 = omega (arith, length-as_hex d, h.0) in
    (of_size (as_hex d) size ∙ pairs_back d h.1, size)
