-- ===== src/Toker/Read.antt =====
-- Toker::readToken (parser/Toker.cc, lines 209 to 235 and 983 to 1000).
use crack.Prelude.{
  ℕ, ◌+◌, ◌*◌, zero, suc, [], codes, Bool, true, false, if◌then◌else◌, some, none, Outcome, ok,
  parse_error, fault, assertion, out_of_fuel,
}
use crack.Token.{Token, end, ident}
use crack.Toker.State.{
  Toker, State, st_none, st_interp_none, st_istr, st_comment, st_ident, get_char, at_end, left,
}
use crack.Toker.Scan.{Scan, fresh, Step, more, token, emit, abort, enter}
use crack.Toker.Step.{step}

-- What stands behind the loop, at the end of the stream.
unfoldable pub finish_in : State → Toker → Scan → Outcome Step
finish_in st_none tk sc = emit (enter tk st_none) end []
finish_in st_comment tk sc = emit (enter tk st_none) end []
finish_in st_ident tk sc = emit (enter tk st_none) ident sc.buf
finish_in _ tk sc = abort tk (codes "End of stream in the middle of a token")

-- One round: the end of the stream, or a character for `step`.
unfoldable pub round : Toker → Scan → Outcome Step
unfolding finish_in
round tk sc = elim (get_char tk) [
  | none ↦ finish_in tk.state (at_end tk) sc
  | some (c, tk') ↦ step tk' sc c
]

-- `while (true)`, on fuel.
unfoldable pub read_loop : ℕ → Toker → Scan → Outcome (Toker × Token)
read_loop zero tk sc = fault out_of_fuel
read_loop (suc fuel) tk sc = elim (round tk sc) [
  | ok r ↦ elim r [ more tk' sc' ↦ read_loop fuel tk' sc' | token tk' tok ↦ ok (tk', tok) ]
  | parse_error l msg ↦ parse_error l msg
  | fault e ↦ fault e
]

-- The assertion at the head of readToken.
abbrev pub may_read : State → Bool
may_read st_none = true
may_read st_interp_none = true
may_read st_istr = true
may_read _ = false

-- A character is read, or read again once it was put back: two rounds for each are enough.
abbrev pub enough : Toker → ℕ
enough tk = 2 * left tk + 2

unfoldable pub read_token : Toker → Outcome (Toker × Token)
unfolding read_loop
read_token tk =
    if may_read tk.state
    then read_loop (enough tk) (record tk { current_start_col = tk.last_loc.end_col + 1 }) fresh
    else fault assertion
