-- ===== src/Toker/State.antt =====
-- parser/Toker.h: the tokenizer's fields, and the methods that read and put back characters
-- (parser/Toker.cc, lines 20 to 62 and 136 to 148).
use crack.Location.{Location}
use crack.Prelude.{
  ℕ, ◌+◌, ◌-◌, ◌^◌, ltb, ◌==◌, Bool, true, false, ◌&&◌, if◌then◌else◌, List, [], ◌∷◌, Option, some,
  none, Bytes, bytes_eq, length, Outcome, ok, fault, assertion,
}
use crack.Token.{Token}

pub data State : Type 0 where
  st_none st_interp_none st_ident st_slash st_minus st_plus st_digram st_comment : State
  st_ccomment st_ccomment2 st_string st_str_escape_char st_istr_escape_char : State
  st_str_octal st_istr_octal st_str_hex st_istr_hex st_number st_intdot st_period : State
  st_zero st_float st_exponent st_exponent2 st_exponent3 st_amp st_istr st_pipe : State
  st_ltgt st_postaug st_hex st_octal st_binary st_strint st_raw_str : State
  st_raw_str_body st_raw_str_escape st_str_escaped_indented_newline : State
  st_istr_escaped_indented_newline st_indent_str : State

pub record Toker : Type 0 where
  -- the put-back list, its back first
  pub tokens : List Token
  -- what the stream has not delivered yet
  pub src : Bytes
  pub current_name : Bytes
  pub current_line : ℕ
  pub current_start_col : ℕ
  pub current_end_col : ℕ
  pub save_end_col : ℕ
  pub last_loc : Location
  pub state : State
  -- putbackBuf from putbackIndex to its end
  pub putback : Bytes
  pub indented_string : Bool
  pub indent_level : ℕ
  pub min_indent_level : ℕ

abbrev pub putback_size : ℕ
putback_size = 2

abbrev pub tab_width : ℕ
tab_width = 8

abbrev pub int_max : ℕ
int_max = 2 ^ 31 - 1

-- The constructor. It leaves saveEndCol, indentLevel and minIndentLevel as they are: `junk`.
unfoldable pub init : Bytes → Bytes → ℕ → ℕ → Toker
init text source_name line junk = record {
  tokens = [];
  src = text;
  current_name = source_name;
  current_line = line;
  current_start_col = 1;
  current_end_col = 1;
  save_end_col = junk;
  last_loc = record { name = source_name; line_number = 1; start_col = 1; end_col = 0 };
  state = st_none;
  putback = [];
  indented_string = false;
  indent_level = junk;
  min_indent_level = junk;
}

-- A new location for the token read so far, unless the last one is said to fit.
unfoldable pub get_location : Toker → Toker × Location
get_location tk =
    let l = tk.last_loc in
    let here : Location = record {
      name = tk.current_name;
      line_number = tk.current_line;
      start_col = tk.current_start_col;
      end_col = tk.current_end_col - 1;
    } in
    if bytes_eq tk.current_name l.name
      && tk.current_line == l.line_number
      && tk.current_start_col == l.start_col
      && tk.current_end_col == l.end_col
    then (tk, l)
    else (record tk { last_loc = here }, here)

-- The put-back buffer comes first, then the stream.
unfoldable pub next_char : Bytes → Bytes → Option (ℕ × Bytes × Bytes)
next_char (c ∷ pb) src = some (c, pb, src)
next_char [] (c ∷ src) = some (c, [], src)
next_char [] [] = none

-- The lines and columns behind a character that was read.
unfoldable pub advance : Toker → ℕ → Toker
advance tk c =
    if c == b'\n'
    then record tk {
      current_line = tk.current_line + 1;
      save_end_col = tk.current_end_col + 1 - 1;
      current_start_col = 1;
      current_end_col = 1;
    }
    else record tk { current_end_col = tk.current_end_col + 1 }

unfoldable pub get_char : Toker → Option (ℕ × Toker)
get_char tk = elim (next_char tk.putback tk.src) [
  | none ↦ none
  | some (c, pb, rest) ↦ some (c, advance (record tk { putback = pb; src = rest }) c)
]

-- At the end of the stream the column still moves.
unfoldable pub at_end : Toker → Toker
at_end tk = record tk { current_end_col = tk.current_end_col + 1 }

unfoldable pub unget_char : Toker → ℕ → Outcome Toker
unget_char tk c =
    if ltb (length tk.putback) putback_size
    then if c == b'\n'
      then ok (record tk {
        putback = c ∷ tk.putback;
        current_line = tk.current_line - 1;
        current_end_col = tk.save_end_col;
      })
      else ok (record tk { putback = c ∷ tk.putback; current_end_col = tk.current_end_col - 1 })
    else fault assertion

unfoldable pub init_indent : Toker → Bool → Toker
init_indent tk true = record tk {
  indented_string = true;
  indent_level = 0;
  min_indent_level = int_max;
}
init_indent tk false = record tk { indented_string = false }

-- What is left to read.
abbrev pub left : Toker → ℕ
left tk = length tk.putback + length tk.src
