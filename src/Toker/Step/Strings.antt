-- ===== src/Toker/Step/Strings.antt =====
-- The inside of strings and i-strings (parser/Toker.cc, lines 588 to 712, 734 to 756 and 918 to
-- 948). The source's paired states share a case; the flag says that the i-string's is meant.
use crack.Prelude.{
  ℕ, ◌+◌, ◌-◌, ◌*◌, ◌%◌, ltb, ◌==◌, Bool, true, false, not, ◌&&◌, if◌then◌else◌, [], ◌∷◌, Option,
  some, none, Bytes, codes, Outcome, ok, ◌>>=◌,
}
use crack.Token.{string, istr_end}
use crack.Toker.Chars.{is_digit, within}
use crack.Toker.State.{
  Toker, State, unget_char, st_none, st_interp_none, st_string, st_str_escape_char,
  st_istr_escape_char, st_str_octal, st_istr_octal, st_str_hex, st_istr_hex, st_istr,
  st_raw_str_body, st_raw_str_escape, st_str_escaped_indented_newline,
  st_istr_escaped_indented_newline,
}
use crack.Toker.Scan.{Scan, Step, more, emit, abort, enter, go, put, need}
use crack.Toker.Indent.{reindent, to_tab}

unfoldable pub step_string : Toker → Scan → ℕ → Outcome Step
step_string tk sc c = do
  stop ← need sc.terminator
  if c == stop
      then (do
        t ← need sc.t1
        let done = enter tk st_none
        let r : Toker × Bytes = if tk.indented_string then reindent done sc.buf else (done, sc.buf)
        emit r.0 t r.1)
      else if c == b'\\'
      then go tk st_str_escape_char sc
      else ok (more tk (put sc c))

abbrev pub back : Bool → State
back true = st_istr
back false = st_string

-- The first digit of an octal escape, or the character itself.
unfoldable pub escape_other : Bool → Toker → Scan → ℕ → Outcome Step
escape_other istr tk sc c =
    if is_digit c && ltb c b'8'
    then go tk (if istr then st_istr_octal else st_str_octal)
        (record sc { code_char = some (c - b'0'); code_len = some 1 })
    else go tk (back istr) (put sc c)

-- A newline after a backslash is dropped; in an indented string the blanks behind it are too.
unfoldable pub escape_newline : Bool → Toker → Scan → Outcome Step
escape_newline istr tk sc =
    if tk.indented_string
    then go (record tk { indent_level = 0 })
        (if istr then st_istr_escaped_indented_newline else st_str_escaped_indented_newline) sc
    else go tk (back istr) sc

unfoldable pub step_escape_char : Bool → Toker → Scan → ℕ → Outcome Step
unfolding escape_other escape_newline
step_escape_char istr tk sc c =
    if c == b't'
    then go tk (back istr) (put sc 9)
    else if c == b'n'
    then go tk (back istr) (put sc 10)
    else if c == b'a'
    then go tk (back istr) (put sc 7)
    else if c == b'r'
    then go tk (back istr) (put sc 13)
    else if c == b'b'
    then go tk (back istr) (put sc 8)
    else if c == b'x'
    then go tk (if istr then st_istr_hex else st_str_hex)
        (record sc { code_char = some 0; code_len = some 0 })
    else if c == b'\n'
    then escape_newline istr tk sc
    else escape_other istr tk sc c

unfoldable pub step_escaped_newline : Bool → Toker → Scan → ℕ → Outcome Step
step_escaped_newline istr tk sc c =
    if c == b' '
    then ok (more (record tk { indent_level = tk.indent_level + 1 }) sc)
    else if c == b'\t'
    then ok (more (record tk { indent_level = to_tab tk.indent_level }) sc)
    else do
      tk' ← unget_char tk c
      let low =
          if ltb tk'.indent_level tk'.min_indent_level
          then tk'.indent_level
          else tk'.min_indent_level
      go (record tk' { min_indent_level = low }) (back istr) sc

-- The test for another octal digit, for codeLen and the character.
unfoldable pub octal_digit : Option ℕ → ℕ → Outcome Bool
octal_digit code_len c =
    if is_digit c && ltb c b'8' then (do len ← need code_len; ok (ltb len 3)) else ok false

-- codeChar is a char: a third digit may push a bit out of it.
unfoldable pub step_str_octal : Bool → Toker → Scan → ℕ → Outcome Step
unfolding octal_digit
step_str_octal istr tk sc c = do
  digit ← octal_digit sc.code_len c
  value ← need sc.code_char
  if digit
      then (do
        len ← need sc.code_len
        ok (
            more tk (record sc {
              code_char = some ((value * 8 + (c - b'0')) % 256);
              code_len = some (len + 1);
            })))
      else do tk' ← unget_char tk c; go tk' (back istr) (put sc value)

-- The value of a hex digit.
unfoldable pub hex_value : ℕ → Option ℕ
hex_value c =
    if is_digit c
    then some (c - b'0')
    else if within b'a' b'f' c
    then some (c - b'a' + 10)
    else if within b'A' b'F' c
    then some (c - b'A' + 10)
    else none

unfoldable pub step_str_hex : Bool → Toker → Scan → ℕ → Outcome Step
unfolding hex_value
step_str_hex istr tk sc c = elim (hex_value c) [
  | none ↦ abort tk (codes "invalid hex code escape sequence (must be two hex digits)")
  | some d ↦ do
    value ← need sc.code_char
    len ← need sc.code_len
    let code = (value * 16 + d) % 256
    let sc' = record sc { code_char = some code; code_len = some (len + 1) }
    if len + 1 == 2 then go tk (back istr) (put sc' code) else ok (more tk sc')
]

unfoldable pub step_raw_str_body : Toker → Scan → ℕ → Outcome Step
step_raw_str_body tk sc c = do
  stop ← need sc.terminator
  if c == stop
      then emit (enter tk st_none) string sc.buf
      else if c == b'\\'
      then go tk st_raw_str_escape (put sc c)
      else ok (more tk (put sc c))

unfoldable pub step_raw_str_escape : Toker → Scan → ℕ → Outcome Step
step_raw_str_escape tk sc c = go tk st_raw_str_body (put sc c)

-- `if (buf.tellp())`
unfoldable pub is_empty : Bytes → Bool
is_empty [] = true
is_empty (c ∷ cs) = false

unfoldable pub step_istr : Toker → Scan → ℕ → Outcome Step
unfolding is_empty
step_istr tk sc c =
    if c == b'`'
    then if not (is_empty sc.buf)
      then (do tk' ← unget_char tk c; emit tk' string sc.buf)
      else emit (enter tk st_none) istr_end (codes "`")
    else if c == b'$'
    then emit (enter tk st_interp_none) string sc.buf
    else if c == b'\\'
    then go tk st_istr_escape_char sc
    else ok (more tk (put sc c))
