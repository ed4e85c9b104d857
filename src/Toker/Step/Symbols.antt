-- ===== src/Toker/Step/Symbols.antt =====
-- readToken inside an operator (parser/Toker.cc, lines 381 to 468, 525 to 541 and 950 to 980).
use crack.Prelude.{
  ℕ, ◌==◌, Bool, false, if◌then◌else◌, [], ◌∷◌, some, Bytes, codes, Outcome, ok, fault,
  uninitialised, ◌>>=◌,
}
use crack.Token.{
  TokenType, ◌is◌, bit_and, bit_or, assign_and, assign_lsh, assign_or, assign_rsh, assign_minus,
  assign_plus, assign_slash, decr, dot, incr, minus, plus, slash, logic_and, logic_or, scoping,
}
use crack.Toker.Chars.{is_digit}
use crack.Toker.State.{Toker, unget_char, st_none, st_comment, st_ccomment, st_float, st_postaug}
use crack.Toker.Scan.{Scan, Step, emit, enter, go, put, put_sym, need}

-- An operator of one character `a`, with what doubling it and adding `=` give.
unfoldable pub step_doubled : TokenType → TokenType → TokenType → ℕ → Toker → ℕ → Outcome Step
step_doubled single twice augmented a tk0 c =
    let tk = enter tk0 st_none in
    if c == a
    then emit tk twice (a ∷ a ∷ [])
    else if c == b'='
    then emit tk augmented (a ∷ b'=' ∷ [])
    else do tk' ← unget_char tk c; emit tk' single (a ∷ [])

unfoldable pub step_amp : Toker → Scan → ℕ → Outcome Step
unfolding step_doubled
step_amp tk sc c = step_doubled bit_and logic_and assign_and b'&' tk c

unfoldable pub step_pipe : Toker → Scan → ℕ → Outcome Step
unfolding step_doubled
step_pipe tk sc c = step_doubled bit_or logic_or assign_or b'|' tk c

unfoldable pub step_minus : Toker → Scan → ℕ → Outcome Step
unfolding step_doubled
step_minus tk sc c = step_doubled minus decr assign_minus b'-' tk c

unfoldable pub step_plus : Toker → Scan → ℕ → Outcome Step
unfolding step_doubled
step_plus tk sc c = step_doubled plus incr assign_plus b'+' tk c

-- A read of `symchars[0]`.
unfoldable pub first_sym : Bytes → Outcome ℕ
first_sym [] = fault uninitialised
first_sym (c ∷ cs) = ok c

-- `ch == ':' && t3 == Token::scoping`: t3 is read only if the first test holds.
unfoldable pub is_scoping : Scan → ℕ → Outcome Bool
is_scoping sc c = if c == b':' then (do t ← need sc.t3; ok (t is scoping)) else ok false

unfoldable pub step_digram : Toker → Scan → ℕ → Outcome Step
unfolding first_sym is_scoping
step_digram tk0 sc c =
    let tk = enter tk0 st_none in
    if c == b'=' then (do t ← need sc.t2; emit tk t (put_sym sc c).sym) else do
      double ← is_scoping sc c
      if double
          then emit tk scoping (codes "::")
          else do tk' ← unget_char tk c; t ← need sc.t1; s ← first_sym sc.sym; emit tk' t (s ∷ [])

unfoldable pub step_ltgt : Toker → Scan → ℕ → Outcome Step
unfolding step_digram first_sym
step_ltgt tk sc c = do
  s ← first_sym sc.sym
  if c == s
      then go tk st_postaug (record (put_sym sc c) {
        t1 = sc.t3;
        t2 = some (if c == b'<' then assign_lsh else assign_rsh);
      })
      else step_digram tk sc c

unfoldable pub step_postaug : Toker → Scan → ℕ → Outcome Step
step_postaug tk0 sc c =
    let tk = enter tk0 st_none in
    if c == b'='
    then (do t ← need sc.t2; emit tk t (put_sym sc c).sym)
    else do tk' ← unget_char tk c; t ← need sc.t1; emit tk' t sc.sym

unfoldable pub step_period : Toker → Scan → ℕ → Outcome Step
step_period tk sc c =
    if is_digit c
    then go tk st_float (put (put sc b'.') c)
    else do tk' ← unget_char tk c; emit (enter tk' st_none) dot (codes ".")

unfoldable pub step_slash : Toker → Scan → ℕ → Outcome Step
step_slash tk sc c =
    if c == b'/'
    then go tk st_comment (record sc { comment_char = some c })
    else if c == b'='
    then emit (enter tk st_none) assign_slash (codes "/=")
    else if c == b'*'
    then go tk st_ccomment sc
    else do tk' ← unget_char tk c; emit (enter tk' st_none) slash (codes "/")
