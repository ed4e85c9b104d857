-- ===== src/Toker/Indent.antt =====
-- evaluateIndentation, fixIndentation and reindent (parser/Toker.cc, lines 64 to 134).
pub mod Words
use crack.Prelude.{
  ℕ, ◌+◌, ◌-◌, ◌*◌, ◌/◌, ltb, leb, ◌==◌, Bool, true, false, not, ◌&&◌, if◌then◌else◌, List, [], ◌∷◌,
  ◌++◌, zero, suc, Bytes,
}
use crack.Toker.State.{Toker, tab_width}

-- The next tab stop.
abbrev pub to_tab : ℕ → ℕ
to_tab indent = (indent / tab_width + 1) * tab_width

-- The loop of evaluateIndentation: `inPrefix`, `indent` and minIndentLevel.
unfoldable pub scan_indent : Bytes → Bool → ℕ → ℕ → ℕ
scan_indent [] in_prefix indent low =
    if in_prefix && not (indent == 0) && ltb indent low then indent else low
scan_indent (c ∷ cs) in_prefix indent low =
    let newline = scan_indent cs true 0 low in
    let space = scan_indent cs true (indent + 1) low in
    let tab = scan_indent cs true (to_tab indent) low in
    let word = scan_indent cs false indent (if ltb indent low then indent else low) in
    let inside = scan_indent cs false indent low in
    if c == b'\n'
    then newline
    else if in_prefix
    then if c == b' ' then space else if c == b'\t' then tab else word
    else inside

unfoldable pub evaluate_indentation : Toker → Bytes → Toker
evaluate_indentation tk val = record tk {
  min_indent_level = scan_indent val false 0 tk.min_indent_level;
}

-- `result.append(n, ' ')`
unfoldable pub spaces : ℕ → Bytes
spaces zero = []
spaces (suc n) = b' ' ∷ spaces n

abbrev pub less_indent : ℕ → ℕ → ℕ
less_indent low indent = if leb low indent then indent - low else indent

-- The loop of fixIndentation, with the result so far.
unfoldable pub fix_loop : ℕ → Bytes → Bytes → Bool → ℕ → Bytes
fix_loop low out [] in_prefix indent =
    if in_prefix then (out ++ b'\n' ∷ []) ++ spaces (less_indent low indent) else out
fix_loop low out (c ∷ cs) in_prefix indent =
    let newline = fix_loop low (if in_prefix then out ++ b'\n' ∷ [] else out) cs true 0 in
    let space = fix_loop low out cs true (indent + 1) in
    let tab = fix_loop low out cs true (to_tab indent) in
    let word =
      fix_loop low (((out ++ b'\n' ∷ []) ++ spaces (less_indent low indent)) ++ c ∷ []) cs false
        (less_indent low indent) in
    let inside = fix_loop low (out ++ c ∷ []) cs false indent in
    if c == b'\n'
    then newline
    else if in_prefix
    then if c == b' ' then space else if c == b'\t' then tab else word
    else inside

unfoldable pub fix_indentation : ℕ → Bytes → Bytes
fix_indentation low val = fix_loop low [] val false 0

unfoldable pub reindent : Toker → Bytes → Toker × Bytes
reindent tk val =
    let tk' = evaluate_indentation tk val in (tk', fix_indentation tk'.min_indent_level val)
