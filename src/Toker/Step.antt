-- ===== src/Toker/Step.antt =====
-- One round of readToken's loop (parser/Toker.cc, lines 233 to 982).
pub mod Base
pub mod Symbols
pub mod Words
pub mod Comments
pub mod Strings
pub mod Numbers
use crack.Prelude.{ℕ, true, false, Outcome}
use crack.Token.{◌is◌}
use crack.Toker.State.{
  Toker, State, st_none, st_interp_none, st_ident, st_slash, st_minus, st_plus, st_digram,
  st_comment, st_ccomment, st_ccomment2, st_string, st_str_escape_char, st_istr_escape_char,
  st_str_octal, st_istr_octal, st_str_hex, st_istr_hex, st_number, st_intdot, st_period, st_zero,
  st_float, st_exponent, st_exponent2, st_exponent3, st_amp, st_istr, st_pipe, st_ltgt, st_postaug,
  st_hex, st_octal, st_binary, st_strint, st_raw_str, st_raw_str_body, st_raw_str_escape,
  st_str_escaped_indented_newline, st_istr_escaped_indented_newline, st_indent_str,
}
use crack.Toker.Scan.{Scan, Step}
use crack.Toker.Step.Base.{step_none, step_interp_none}
use crack.Toker.Step.Symbols.{
  step_amp, step_pipe, step_minus, step_plus, step_ltgt, step_digram, step_postaug, step_period,
  step_slash,
}
use crack.Toker.Step.Words.{step_strint, step_raw_str, step_indent_str, step_ident}
use crack.Toker.Step.Comments.{step_comment, step_ccomment, step_ccomment2}
use crack.Toker.Step.Strings.{
  step_string, step_escape_char, step_escaped_newline, step_str_octal, step_str_hex,
  step_raw_str_body, step_raw_str_escape, step_istr,
}
use crack.Toker.Step.Numbers.{
  step_binary, step_octal, step_hex, step_zero, step_number, step_intdot, step_float, step_exponent,
  step_exponent2, step_exponent3,
}

-- `switch (state)`. Every member of the enumeration has a case, so the source's default, which
-- throws logic_error, is never taken.
unfoldable pub step_in : State → Toker → Scan → ℕ → Outcome Step
step_in st_none tk sc c = step_none tk sc c
step_in st_interp_none tk sc c = step_interp_none tk sc c
step_in st_ident tk sc c = step_ident tk sc c
step_in st_slash tk sc c = step_slash tk sc c
step_in st_minus tk sc c = step_minus tk sc c
step_in st_plus tk sc c = step_plus tk sc c
step_in st_digram tk sc c = step_digram tk sc c
step_in st_comment tk sc c = step_comment tk sc c
step_in st_ccomment tk sc c = step_ccomment tk sc c
step_in st_ccomment2 tk sc c = step_ccomment2 tk sc c
step_in st_string tk sc c = step_string tk sc c
step_in st_str_escape_char tk sc c = step_escape_char false tk sc c
step_in st_istr_escape_char tk sc c = step_escape_char true tk sc c
step_in st_str_octal tk sc c = step_str_octal false tk sc c
step_in st_istr_octal tk sc c = step_str_octal true tk sc c
step_in st_str_hex tk sc c = step_str_hex false tk sc c
step_in st_istr_hex tk sc c = step_str_hex true tk sc c
step_in st_number tk sc c = step_number tk sc c
step_in st_intdot tk sc c = step_intdot tk sc c
step_in st_period tk sc c = step_period tk sc c
step_in st_zero tk sc c = step_zero tk sc c
step_in st_float tk sc c = step_float tk sc c
step_in st_exponent tk sc c = step_exponent tk sc c
step_in st_exponent2 tk sc c = step_exponent2 tk sc c
step_in st_exponent3 tk sc c = step_exponent3 tk sc c
step_in st_amp tk sc c = step_amp tk sc c
step_in st_istr tk sc c = step_istr tk sc c
step_in st_pipe tk sc c = step_pipe tk sc c
step_in st_ltgt tk sc c = step_ltgt tk sc c
step_in st_postaug tk sc c = step_postaug tk sc c
step_in st_hex tk sc c = step_hex tk sc c
step_in st_octal tk sc c = step_octal tk sc c
step_in st_binary tk sc c = step_binary tk sc c
step_in st_strint tk sc c = step_strint tk sc c
step_in st_raw_str tk sc c = step_raw_str tk sc c
step_in st_raw_str_body tk sc c = step_raw_str_body tk sc c
step_in st_raw_str_escape tk sc c = step_raw_str_escape tk sc c
step_in st_str_escaped_indented_newline tk sc c = step_escaped_newline false tk sc c
step_in st_istr_escaped_indented_newline tk sc c = step_escaped_newline true tk sc c
step_in st_indent_str tk sc c = step_indent_str tk sc c

unfoldable pub step : Toker → Scan → ℕ → Outcome Step
unfolding step_in
step tk sc c = step_in tk.state tk sc c
