-- ===== src/Toker/Step/Words.antt =====
-- Identifiers, keywords and the prefixes of string tokens (parser/Toker.cc, lines 150 to 207 and
-- 470 to 523).
use crack.Location.{Location}
use crack.Prelude.{
  ℕ, ◌==◌, Bool, true, false, not, ◌&&◌, ◌||◌, if◌then◌else◌, List, [], ◌∷◌, Option, some, none,
  Bytes, codes, bytes_eq, Outcome, ok, ◌>>=◌,
}
use crack.Token.{
  TokenType, Token, ident, integer, string, istr_begin, break_kw, catch_kw, class_kw, continue_kw,
  else_kw, if_kw, import_kw, in_kw, is_kw, null_kw, return_kw, throw_kw, try_kw, while_kw, on_kw,
  oper_kw, for_kw, typeof_kw, const_kw, module_kw, lambda_kw, enum_kw, alias_kw, case_kw, switch_kw,
  do_kw,
}
use crack.Toker.Chars.{is_alnum, is_positive}
use crack.Toker.State.{
  Toker, get_location, unget_char, init_indent, st_none, st_ident, st_string, st_istr,
  st_raw_str_body,
}
use crack.Toker.Scan.{Scan, Step, more, token, emit, enter, go, put}

-- The keywords, in the order of fixIdent's tests.
abbrev pub keywords : List (Bytes × TokenType)
keywords =
    (codes "break", break_kw)
    ∷ (codes "catch", catch_kw)
    ∷ (codes "class", class_kw)
    ∷ (codes "continue", continue_kw)
    ∷ (codes "else", else_kw)
    ∷ (codes "if", if_kw)
    ∷ (codes "import", import_kw)
    ∷ (codes "in", in_kw)
    ∷ (codes "is", is_kw)
    ∷ (codes "null", null_kw)
    ∷ (codes "return", return_kw)
    ∷ (codes "throw", throw_kw)
    ∷ (codes "try", try_kw)
    ∷ (codes "while", while_kw)
    ∷ (codes "on", on_kw)
    ∷ (codes "oper", oper_kw)
    ∷ (codes "for", for_kw)
    ∷ (codes "typeof", typeof_kw)
    ∷ (codes "const", const_kw)
    ∷ (codes "module", module_kw)
    ∷ (codes "lambda", lambda_kw)
    ∷ (codes "enum", enum_kw)
    ∷ (codes "alias", alias_kw)
    ∷ (codes "case", case_kw)
    ∷ (codes "switch", switch_kw)
    ∷ (codes "do", do_kw)
    ∷ []

unfoldable pub find_keyword : Bytes → List (Bytes × TokenType) → Option TokenType
find_keyword text [] = none
find_keyword text ((k, t) ∷ ks) = if bytes_eq text k then some t else find_keyword text ks

-- A keyword has the location handed in, an identifier asks for it again.
unfoldable pub fix_ident : Toker → Bytes → Location → Toker × Token
unfolding find_keyword
fix_ident tk text loc = elim (find_keyword text keywords) [
  | some t ↦ (tk, record { type = t; text = text; loc = loc })
  | none ↦
      let (tk', here) = get_location tk in (tk', record { type = ident; text = text; loc = here })
]

abbrev pub is_quote : ℕ → Bool
is_quote c = c == b'"' || c == b'\''

abbrev pub ends_ident : ℕ → Bool
ends_ident c = not (is_alnum c) && not (c == b'_') && is_positive c

-- `fixIdent(buf.str(), getLocation())`
unfoldable pub emit_ident : Toker → Bytes → Outcome Step
unfolding fix_ident
emit_ident tk text =
    let (tk', loc) = get_location tk in
    let (tk'', tok) = fix_ident tk' text loc in ok (token tk'' tok)

unfoldable pub step_ident : Toker → Scan → ℕ → Outcome Step
unfolding emit_ident
step_ident tk sc c =
    if ends_ident c
    then (do tk' ← unget_char tk c; emit_ident (enter tk' st_none) sc.buf)
    else ok (more tk (put sc c))

-- `case st_indentStr` as the two cases above it reach it: the state is theirs, so a back quote
-- counts only for st_indentStr itself, the flag.
unfoldable pub indent_case : Bool → Toker → Scan → ℕ → Outcome Step
unfolding step_ident
indent_case indented tk sc c =
    if is_quote c
    then go (init_indent tk true) st_string
        (record sc { terminator = some c; buf = []; t1 = some string })
    else if indented && c == b'`'
    then emit (init_indent (enter tk st_istr) true) istr_begin (codes "`")
    else step_ident (enter tk st_ident) sc c

-- `case st_rawStr`, also reached from st_strint.
unfoldable pub raw_case : Toker → Scan → ℕ → Outcome Step
unfolding indent_case
raw_case tk sc c =
    if is_quote c
    then go tk st_raw_str_body (record sc { terminator = some c; buf = [] })
    else indent_case false tk sc c

unfoldable pub step_strint : Toker → Scan → ℕ → Outcome Step
unfolding raw_case
step_strint tk sc c =
    if is_quote c
    then go tk st_string (record (put sc b'/') { t1 = some integer; terminator = some c })
    else raw_case tk sc c

unfoldable pub step_raw_str : Toker → Scan → ℕ → Outcome Step
unfolding raw_case
step_raw_str tk sc c = raw_case tk sc c

unfoldable pub step_indent_str : Toker → Scan → ℕ → Outcome Step
unfolding indent_case
step_indent_str tk sc c = indent_case true tk sc c
