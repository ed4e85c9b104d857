-- ===== src/Toker/Step/Base.antt =====
-- readToken in st_none and st_interpNone: the first character of a token (parser/Toker.cc, lines
-- 237 to 379). Each function holds a stretch of the source's ladder and ends in the next one.
use crack.Prelude.{ℕ, ◌+◌, ◌==◌, false, ◌||◌, if◌then◌else◌, some, codes, Outcome, ok}
use crack.Token.{
  ann, bit_lsh, bit_rsh, bit_xor, dollar, assign, assign_asterisk, assign_xor, assign_percent,
  asterisk, bang, colon, comma, define, eq, ge, gt, lbracket, lcurly, le, lparen, lt, ne, percent,
  quest, rbracket, rcurly, rparen, semi, string, tilde, istr_begin, scoping,
}
use crack.Toker.Chars.{is_space, is_blank, is_digit, is_alpha, is_negative}
use crack.Toker.State.{
  Toker, init_indent, st_none, st_ident, st_slash, st_minus, st_plus, st_digram, st_comment,
  st_string, st_number, st_period, st_zero, st_amp, st_istr, st_pipe, st_ltgt, st_postaug,
  st_strint, st_raw_str, st_indent_str,
}
use crack.Toker.Scan.{Scan, Step, more, emit, abort, enter, go, put, put_sym}

-- The quotes, `:`, `.`, `@`, the digits, `~`, the back quote and `?`.
unfoldable pub base_rest : Toker → Scan → ℕ → Outcome Step
base_rest tk sc c =
    if c == b'"' || c == b'\''
    then go (init_indent tk false) st_string (record sc { terminator = some c; t1 = some string })
    else if c == b':'
    then go tk st_digram
        (record (put_sym sc c) { t1 = some colon; t2 = some define; t3 = some scoping })
    else if c == b'.'
    then go tk st_period sc
    else if c == b'@'
    then emit tk ann (codes "@")
    else if is_digit c
    then if c == b'0' then go tk st_zero sc else go tk st_number (put sc c)
    else if c == b'~'
    then emit tk tilde (codes "~")
    else if c == b'`'
    then emit (enter (init_indent tk false) st_istr) istr_begin (codes "`")
    else if c == b'?'
    then emit tk quest (codes "?")
    else abort tk (codes "unknown token")

-- The arithmetic operators.
unfoldable pub base_arith : Toker → Scan → ℕ → Outcome Step
unfolding base_rest
base_arith tk sc c =
    if c == b'+'
    then go tk st_plus sc
    else if c == b'-'
    then go tk st_minus sc
    else if c == b'&'
    then go tk st_amp sc
    else if c == b'|'
    then go tk st_pipe sc
    else if c == b'*'
    then go tk st_postaug (record (put_sym sc c) { t1 = some asterisk; t2 = some assign_asterisk })
    else if c == b'%'
    then go tk st_postaug (record (put_sym sc c) { t1 = some percent; t2 = some assign_percent })
    else if c == b'/'
    then go tk st_slash sc
    else if c == b'^'
    then go tk st_postaug (record (put_sym sc c) { t1 = some bit_xor; t2 = some assign_xor })
    else base_rest tk sc c

-- The brackets and `$`.
unfoldable pub base_brackets : Toker → Scan → ℕ → Outcome Step
unfolding base_arith
base_brackets tk sc c =
    if c == b'('
    then emit tk lparen (codes "(")
    else if c == b')'
    then emit tk rparen (codes ")")
    else if c == b'{'
    then emit tk lcurly (codes "{")
    else if c == b'}'
    then emit tk rcurly (codes "}")
    else if c == b'['
    then emit tk lbracket (codes "[")
    else if c == b']'
    then emit tk rbracket (codes "]")
    else if c == b'$'
    then emit tk dollar (codes "$")
    else base_arith tk sc c

-- `;`, `,` and the symbols that `=` may follow.
unfoldable pub base_digrams : Toker → Scan → ℕ → Outcome Step
unfolding base_brackets
base_digrams tk sc c =
    if c == b';'
    then emit tk semi (codes ";")
    else if c == b','
    then emit tk comma (codes ",")
    else if c == b'='
    then go tk st_digram (record (put_sym sc c) { t1 = some assign; t2 = some eq })
    else if c == b'!'
    then go tk st_digram (record (put_sym sc c) { t1 = some bang; t2 = some ne })
    else if c == b'>'
    then go tk st_ltgt (record (put_sym sc c) { t1 = some gt; t2 = some ge; t3 = some bit_rsh })
    else if c == b'<'
    then go tk st_ltgt (record (put_sym sc c) { t1 = some lt; t2 = some le; t3 = some bit_lsh })
    else base_brackets tk sc c

-- `case st_interpNone`: `state = st_none` comes first.
unfoldable pub step_interp_none : Toker → Scan → ℕ → Outcome Step
unfolding base_digrams
step_interp_none tk0 sc c =
    let tk = enter tk0 st_none in
    if is_space c
    then ok (
        more
          (record tk {
            current_start_col =
                if is_blank c then tk.current_start_col + 1 else tk.current_start_col;
          })
          sc)
    else if is_alpha c || c == b'_' || is_negative c
    then go tk st_ident (put sc c)
    else if c == b'#'
    then go tk st_comment (record sc { comment_char = some c })
    else base_digrams tk sc c

-- `case st_none`: the prefixes of string tokens, and on to the case below it.
unfoldable pub step_none : Toker → Scan → ℕ → Outcome Step
unfolding step_interp_none
step_none tk sc c =
    if c == b'i' || c == b'b'
    then go tk st_strint (put sc c)
    else if c == b'r'
    then go tk st_raw_str (put sc c)
    else if c == b'I'
    then go tk st_indent_str (put sc c)
    else step_interp_none tk sc c
