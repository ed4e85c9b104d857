-- ===== src/Toker/Get.antt =====
-- Toker::getToken, putBack and continueIString (parser/Toker.cc, lines 1002 to 1061, and
-- parser/Toker.h, lines 137 to 149).
use crack.Prelude.{
  ℕ, zero, suc, ◌+◌, ◌==◌, Bool, not, ◌&&◌, ◌||◌, if◌then◌else◌, List, [], ◌∷◌, ◌++◌, codes,
  Outcome, ok, parse_error, fault, assertion, out_of_fuel, ◌>>=◌,
}
use crack.Token.{Token, ◌is◌, string, istr_begin, istr_end, end, lparen, rparen, ident}
use crack.Toker.Indent.{evaluate_indentation, fix_indentation}
use crack.Toker.Read.{read_token}
use crack.Toker.State.{Toker, State, st_none, st_istr, left}
use mathlib.Core.Bool.{true, false}
use mathlib.Core.List.{map}

-- A token goes to the back of the put-back list.
unfoldable pub put_back : Toker → Token → Toker
put_back tk tok = record tk { tokens = tok ∷ tk.tokens }

unfoldable pub is_st_none : State → Bool
is_st_none st_none = true
is_st_none _ = false

unfoldable pub is_st_istr : State → Bool
is_st_istr st_istr = true
is_st_istr _ = false

unfoldable pub continue_istring : Toker → Outcome Toker
unfolding is_st_none
continue_istring tk =
    if is_st_none tk.state then ok (record tk { state = st_istr }) else fault assertion

-- The state that a put-back token leaves the tokenizer in.
unfoldable pub state_after : State → Token → State
unfolding is_st_istr
state_after st tok =
    if is_st_istr st && not (tok.type is string) && not (tok.type is istr_begin)
    then st_none
    else if tok.type is istr_begin
    then st_istr
    else st

-- The body of the loop that follows an i-string's parentheses: the new count of open ones.
unfoldable pub follow : Toker → Token → ℕ → Outcome (Toker × ℕ)
unfolding continue_istring
follow tk tok zero =
    if tok.type is lparen
    then ok (tk, 1)
    else if tok.type is ident
    then (do tk' ← continue_istring tk; ok (tk', 0))
    else ok (tk, 0)
follow tk tok (suc parens) =
    if tok.type is lparen
    then ok (tk, suc parens + 1)
    else if tok.type is rparen
    then if parens == 0 then (do tk' ← continue_istring tk; ok (tk', 0)) else ok (tk, parens)
    else if tok.type is istr_begin
    then parse_error tok.loc (codes "Nested i-strings are not currently supported.")
    else ok (tk, suc parens)

-- The tokens behind `tok`, in order, up to the i-string's end or the end of the stream.
unfoldable pub read_istr : ℕ → Toker → Token → ℕ → Outcome (Toker × List Token)
read_istr zero tk tok parens = fault out_of_fuel
read_istr (suc fuel) tk tok parens = elim (tok.type is istr_end || tok.type is end) [
  | true ↦ ok (tk, [])
  | false ↦ do
    (tk', parens') ← follow tk tok parens
    (tk'', next) ← read_token tk'
    (last, rest) ← read_istr fuel tk'' next parens'
    ok (last, next ∷ rest)
]

-- The first loop over the batch: every string token lowers minIndentLevel.
unfoldable pub evaluate_all : Toker → List Token → Toker
evaluate_all tk [] = tk
evaluate_all tk (t ∷ ts) =
    evaluate_all (if t.type is string then evaluate_indentation tk t.text else tk) ts

-- The second loop.
unfoldable pub fix_token : ℕ → Token → Token
fix_token low t = if t.type is string then record t { text = fix_indentation low t.text } else t

-- getToken where nothing was put back. Every token but the end takes a character at least, so the
-- loop's rounds are no more than the characters left and one.
unfoldable pub get_fresh : Toker → Outcome (Toker × Token)
unfolding read_istr evaluate_all fix_token
get_fresh tk = do
  (tk', tok) ← read_token tk
  if tk'.indented_string && tok.type is istr_begin
      then (do
        (tk'', rest) ← read_istr (left tk' + 2) tk' tok 0
        let tk3 = evaluate_all tk'' rest
        ok (record tk3 { tokens = map (fix_token tk3.min_indent_level) rest ++ tk3.tokens }, tok))
      else ok (tk', tok)

unfoldable pub get_in : List Token → Toker → Outcome (Toker × Token)
unfolding get_fresh state_after
get_in [] tk = get_fresh tk
get_in (t ∷ ts) tk = ok (record tk { tokens = ts; state = state_after tk.state t }, t)

unfoldable pub get_token : Toker → Outcome (Toker × Token)
unfolding get_in
get_token tk = get_in tk.tokens tk
