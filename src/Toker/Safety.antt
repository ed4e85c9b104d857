-- ===== src/Toker/Safety.antt =====
-- The invariant of a round of readToken: the characters put back, the text read and the text left,
-- and the lines.
pub mod Rules
pub mod Symbols
pub mod Base
pub mod Words
pub mod Comments
pub mod Strings
pub mod Bodies
pub mod Numbers
pub mod Took
pub mod Round
pub mod Loop
use crack.Location.{Location}
use crack.Prelude.{
  ℕ, zero, suc, ◌+◌, ◌-◌, ◌*◌, ◌≤◌, ◌<◌, ◌≡◌, ◌≢◌, ◌⊎◌, ◌==◌, Bool, true, false, List, [], ◌∷◌,
  ◌++◌, Option, some, none, Bytes, length, count, Outcome, ok, parse_error, fault,
}
use crack.Token.{TokenType, Token, ◌is◌, type_code, end}
use crack.Toker.Read.{may_read}
use crack.Toker.Scan.{Scan, Step, more, token}
use crack.Toker.State.{
  Toker, State, left, st_none, st_interp_none, st_ident, st_slash, st_minus, st_plus, st_digram,
  st_comment, st_ccomment, st_ccomment2, st_string, st_str_escape_char, st_istr_escape_char,
  st_str_octal, st_istr_octal, st_str_hex, st_istr_hex, st_number, st_intdot, st_period, st_zero,
  st_float, st_exponent, st_exponent2, st_exponent3, st_amp, st_istr, st_pipe, st_ltgt, st_postaug,
  st_hex, st_octal, st_binary, st_strint, st_raw_str, st_raw_str_body, st_raw_str_escape,
  st_str_escaped_indented_newline, st_istr_escaped_indented_newline, st_indent_str,
}

-- The text still to be read.
abbrev pub pending : Toker → Bytes
pending tk = tk.putback ++ tk.src

pub data Suffix (q : Bytes) : Bytes → Type 0 where
  here : Suffix q q
  there : {p : Bytes} {c : ℕ} → Suffix q p → Suffix q (c ∷ p)

-- How many characters may be in the put-back buffer before a state reads one.
abbrev pub room : State → ℕ
room st_none = 2
room st_interp_none = 2
room st_istr = 2
room st_intdot = 0
room _ = 1

-- How many characters of the token a state has behind it.
abbrev pub used : State → ℕ
used st_none = 0
used st_interp_none = 0
used st_istr = 0
used st_intdot = 2
used _ = 1

-- The states that may put their character back and go on.
abbrev pub rank : State → ℕ
rank st_zero = 1
rank st_str_octal = 1
rank st_istr_octal = 1
rank st_str_escaped_indented_newline = 1
rank st_istr_escaped_indented_newline = 1
rank _ = 0

-- A local variable that holds the type of a token that is not the end.
abbrev pub Known : Option TokenType → Type 0
Known none = ⊥
Known (some t) = (t is end) ≡ false

abbrev pub Written {ℓ} : {A : Type ℓ} → Option A → Type 0
Written none = ⊥
Written (some a) = Unit {0}

-- The first entry of symchars is written.
abbrev pub Filled : Bytes → Type 0
Filled [] = ⊥
Filled (c ∷ cs) = Unit {0}

pub Filled-last : (cs : Bytes) (c : ℕ) → Filled (cs ++ c ∷ [])
Filled-last [] c = tt
Filled-last (d ∷ cs) c = tt

-- The variables of a character code are written.
abbrev pub Coded : Scan → Type 0
Coded sc = Written sc.code_char × Written sc.code_len

abbrev pub Colonless : Bytes → Type 0
Colonless [] = Unit {0}
Colonless (c ∷ cs) = (c == b':') ≡ false

-- `=` and `!` are not followed by `:`.
abbrev pub Clear : Bytes → Type 0
Clear [] = Unit {0}
Clear (c ∷ cs) = (((c == b'=' ≡ false) × (c == b'!' ≡ false)) ⊎ Colonless cs) × Clear cs

-- `text` is what the call of readToken began with, `total` its first line and the newlines in it.
module _ (text : Bytes) (total : ℕ) where
  -- What a state needs of the local variables, or of the text behind it.
  abbrev pub Locals : State → Toker → Scan → Type 0
  Locals st_digram tk sc =
      Known sc.t1 × Known sc.t2 × (Colonless (pending tk) ⊎ Written sc.t3) × Filled sc.sym
  Locals st_ltgt tk sc = Known sc.t1 × Known sc.t2 × Known sc.t3 × Filled sc.sym
  Locals st_postaug tk sc = Known sc.t1 × Known sc.t2
  Locals st_comment tk sc = Written sc.comment_char
  Locals st_string tk sc = Known sc.t1 × Written sc.terminator
  Locals st_str_escape_char tk sc = Known sc.t1 × Written sc.terminator
  Locals st_str_octal tk sc = (Known sc.t1 × Written sc.terminator) × Coded sc
  Locals st_str_hex tk sc = (Known sc.t1 × Written sc.terminator) × Coded sc
  Locals st_istr_octal tk sc = Coded sc
  Locals st_istr_hex tk sc = Coded sc
  Locals st_str_escaped_indented_newline tk sc = Known sc.t1 × Written sc.terminator
  Locals st_raw_str_body tk sc = Written sc.terminator
  Locals st_raw_str_escape tk sc = Written sc.terminator
  Locals st_istr tk sc = (sc.buf ≡ []) ⊎ (left tk < length text)
  Locals st_intdot tk sc = Suffix (b'.' ∷ pending tk) text
  Locals _ tk sc = Unit {0}

  pub record Spot (p : Bytes) (line : ℕ) : Type 0 where
    pub suffix : Suffix p text
    pub clear : Clear p
    pub lines : line + count b'\n' p ≡ total

  -- Before a round.
  pub record Before (tk : Toker) (sc : Scan) : Type 0 where
    pub at_spot : Spot (pending tk) tk.current_line
    pub fits : length tk.putback ≤ room tk.state
    pub spent : used tk.state + left tk ≤ length text
    pub locals : Locals tk.state tk sc

  -- Behind a token.
  pub record Delivered (tk : Toker) (tok : Token) : Type 0 where
    pub at_spot : Spot (pending tk) tk.current_line
    pub ready : may_read tk.state ≡ true
    pub fits : length tk.putback ≤ 2
    pub progress :
        ((tok.type is end) ≡ true) × (pending tk ≡ [])
        ⊎ ((tok.type is end) ≡ false) × (left tk < length text)
    pub located : tok.loc.line_number ≡ tk.current_line

  -- A character was read in state `st`.
  pub record Got (st : State) (tk : Toker) (sc : Scan) (c : ℕ) : Type 0 where
    pub whole : Suffix (c ∷ pending tk) text
    pub at_spot : Spot (pending tk) tk.current_line
    pub clear : Clear (c ∷ pending tk)
    pub newline : ((c == b'\n') ≡ false) ⊎ (1 ≤ tk.current_line)
    pub fits : length tk.putback ≤ room st - 1
    pub spent : used st + left tk + 1 ≤ length text

  -- What a round may give, of rounds that are fewer than `n`. A fault is not among it.
  pub data Post (n : ℕ) : Outcome Step → Type 0 where
    goes :
        {tk : Toker} {sc : Scan}
        → Before tk sc
        → 2 * left tk + rank tk.state < n
        → Post n (ok (more tk sc))
    delivers : {tk : Toker} {tok : Token} → Delivered tk tok → Post n (ok (token tk tok))
    fails : {l : Location} {msg : Bytes} → Post n (parse_error l msg)
