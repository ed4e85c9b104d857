-- ===== src/Toker/Step/Numbers.antt =====
-- Number tokens (parser/Toker.cc, lines 714 to 732, 758 to 916).
use crack.Prelude.{ℕ, ◌==◌, Bool, ◌||◌, if◌then◌else◌, Bytes, codes, Outcome, ok, ◌>>=◌}
use crack.Token.{TokenType, integer, float_lit, octal_lit, hex_lit, bin_lit}
use crack.Toker.Chars.{is_digit, is_xdigit, within}
use crack.Toker.State.{
  Toker, unget_char, st_none, st_intdot, st_float, st_exponent, st_exponent2, st_exponent3, st_hex,
  st_octal, st_binary,
}
use crack.Toker.Scan.{Scan, Step, more, emit, abort, enter, go, put}
use crack.Toker.Step.Strings.{is_empty}

-- A constant with a base: digits, and at least one character.
unfoldable pub step_based : (ℕ → Bool) → TokenType → Bytes → Toker → Scan → ℕ → Outcome Step
unfolding is_empty
step_based good type msg tk sc c = if good c then ok (more tk (put sc c)) else do
  tk' ← unget_char tk c
  if is_empty sc.buf then abort tk' msg else emit (enter tk' st_none) type sc.buf

abbrev pub is_binary_digit : ℕ → Bool
is_binary_digit c = c == b'0' || c == b'1'

unfoldable pub step_binary : Toker → Scan → ℕ → Outcome Step
unfolding step_based
step_binary = step_based is_binary_digit bin_lit (codes "invalid binary constant")

unfoldable pub step_octal : Toker → Scan → ℕ → Outcome Step
unfolding step_based
step_octal = step_based (within b'0' b'7') octal_lit (codes "invalid octal constant")

unfoldable pub step_hex : Toker → Scan → ℕ → Outcome Step
unfolding step_based
step_hex = step_based is_xdigit hex_lit (codes "invalid hex constant")

-- The test for a binary constant names `b` twice in the source.
unfoldable pub step_zero : Toker → Scan → ℕ → Outcome Step
step_zero tk sc c =
    if c == b'x' || c == b'X'
    then go tk st_hex sc
    else if c == b'o' || c == b'O'
    then go tk st_octal (put sc b'0')
    else if c == b'b' || c == b'b'
    then go tk st_binary sc
    else if c == b'.'
    then go tk st_float (put sc c)
    else if is_digit c
    then (do tk' ← unget_char (enter tk st_octal) c; ok (more tk' sc))
    else do tk' ← unget_char tk c; emit (enter tk' st_none) integer (codes "0")

unfoldable pub step_number : Toker → Scan → ℕ → Outcome Step
step_number tk sc c =
    if is_digit c
    then ok (more tk (put sc c))
    else if c == b'.'
    then go tk st_intdot sc
    else if c == b'e' || c == b'E'
    then go tk st_exponent (put sc c)
    else do tk' ← unget_char tk c; emit (enter tk' st_none) integer sc.buf

unfoldable pub step_intdot : Toker → Scan → ℕ → Outcome Step
step_intdot tk sc c = if is_digit c then go tk st_float (put (put sc b'.') c) else do
  tk' ← unget_char tk c
  tk'' ← unget_char tk' b'.'
  emit (enter tk'' st_none) integer sc.buf

unfoldable pub step_float : Toker → Scan → ℕ → Outcome Step
step_float tk sc c =
    if is_digit c
    then ok (more tk (put sc c))
    else if c == b'e' || c == b'E'
    then go tk st_exponent (put sc c)
    else do tk' ← unget_char tk c; emit (enter tk' st_none) float_lit sc.buf

unfoldable pub step_exponent2 : Toker → Scan → ℕ → Outcome Step
step_exponent2 tk sc c =
    if is_digit c
    then go tk st_exponent3 (put sc c)
    else abort tk (codes "invalid float specification")

unfoldable pub step_exponent : Toker → Scan → ℕ → Outcome Step
unfolding step_exponent2
step_exponent tk sc c =
    if c == b'+' || c == b'-' then go tk st_exponent2 (put sc c) else step_exponent2 tk sc c

unfoldable pub step_exponent3 : Toker → Scan → ℕ → Outcome Step
step_exponent3 tk sc c =
    if is_digit c
    then ok (more tk (put sc c))
    else do tk' ← unget_char tk c; emit (enter tk' st_none) float_lit sc.buf
