-- ===== src/Toker/Chars.antt =====
-- The character tests of the C library in the C locale, on bytes. A `char` is signed, so the
-- source's `ch < 0` is `128 ≤ c`.
use crack.Prelude.{ℕ, ltb, leb, ◌==◌, Bool, ◌&&◌, ◌||◌}

unfoldable pub within : ℕ → ℕ → ℕ → Bool
within lo hi c = leb lo c && leb c hi

unfoldable pub is_space : ℕ → Bool
unfolding within
is_space c = within 9 13 c || c == b' '

unfoldable pub is_blank : ℕ → Bool
is_blank c = c == b' ' || c == b'\t'

unfoldable pub is_digit : ℕ → Bool
unfolding within
is_digit c = within b'0' b'9' c

unfoldable pub is_alpha : ℕ → Bool
unfolding within
is_alpha c = within b'a' b'z' c || within b'A' b'Z' c

unfoldable pub is_alnum : ℕ → Bool
unfolding is_alpha is_digit
is_alnum c = is_alpha c || is_digit c

unfoldable pub is_xdigit : ℕ → Bool
unfolding is_digit within
is_xdigit c = is_digit c || within b'a' b'f' c || within b'A' b'F' c

unfoldable pub is_negative : ℕ → Bool
is_negative c = leb 128 c

-- `ch > 0`
unfoldable pub is_positive : ℕ → Bool
is_positive c = ltb 0 c && ltb c 128
