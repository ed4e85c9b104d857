-- ===== src/Grammar/Kinds.antt =====
-- parser/Parser.cc: the conditions on the token's type in the ladders of parseExpression,
-- parseSecondary and parsePrimary, and the table of precedences.
use crack.Prelude.Maps.{find_key}
use crack.Prelude.{ℕ, Bool, true, false, if◌then◌else◌, Option, List, [], ◌∷◌, Bytes, codes}
use crack.Token.{TokenType}

-- The branches of parseExpression.
pub data Begin : Type 0 where
  start_null start_paren start_typeof start_name start_text start_istring : Begin
  start_int : ℕ → Begin
  start_float start_plus start_prefix start_lambda start_class start_curly no_start : Begin

unfoldable pub begin_of : TokenType → Begin
begin_of TokenType.null_kw = start_null
begin_of TokenType.lparen = start_paren
begin_of TokenType.typeof_kw = start_typeof
begin_of TokenType.ident = start_name
begin_of TokenType.string = start_text
begin_of TokenType.istr_begin = start_istring
begin_of TokenType.integer = start_int 10
begin_of TokenType.float_lit = start_float
begin_of TokenType.octal_lit = start_int 8
begin_of TokenType.hex_lit = start_int 16
begin_of TokenType.bin_lit = start_int 2
begin_of TokenType.plus = start_plus
begin_of TokenType.bang = start_prefix
begin_of TokenType.minus = start_prefix
begin_of TokenType.tilde = start_prefix
begin_of TokenType.decr = start_prefix
begin_of TokenType.incr = start_prefix
begin_of TokenType.lambda_kw = start_lambda
begin_of TokenType.class_kw = start_class
begin_of TokenType.lcurly = start_curly
begin_of _ = no_start

-- The branches of parseSecondary. parsePrimary has four of them.
pub data After : Type 0 where
  take_attr take_member take_index take_call take_bump take_bin take_format take_quest : After
  take_bang take_assign take_define leave : After

unfoldable pub after_of : TokenType → After
after_of TokenType.dot = take_attr
after_of TokenType.scoping = take_member
after_of TokenType.lbracket = take_index
after_of TokenType.lparen = take_call
after_of TokenType.incr = take_bump
after_of TokenType.decr = take_bump
after_of TokenType.plus = take_bin
after_of TokenType.minus = take_bin
after_of TokenType.asterisk = take_bin
after_of TokenType.slash = take_bin
after_of TokenType.percent = take_bin
after_of TokenType.eq = take_bin
after_of TokenType.ne = take_bin
after_of TokenType.lt = take_bin
after_of TokenType.gt = take_bin
after_of TokenType.le = take_bin
after_of TokenType.ge = take_bin
after_of TokenType.is_kw = take_bin
after_of TokenType.logic_and = take_bin
after_of TokenType.logic_or = take_bin
after_of TokenType.bit_and = take_bin
after_of TokenType.bit_or = take_bin
after_of TokenType.bit_xor = take_bin
after_of TokenType.bit_lsh = take_bin
after_of TokenType.bit_rsh = take_bin
after_of TokenType.istr_begin = take_format
after_of TokenType.quest = take_quest
after_of TokenType.bang = take_bang
after_of TokenType.assign = take_assign
after_of TokenType.assign_and = take_assign
after_of TokenType.assign_asterisk = take_assign
after_of TokenType.assign_lsh = take_assign
after_of TokenType.assign_or = take_assign
after_of TokenType.assign_rsh = take_assign
after_of TokenType.assign_xor = take_assign
after_of TokenType.assign_minus = take_assign
after_of TokenType.assign_percent = take_assign
after_of TokenType.assign_plus = take_assign
after_of TokenType.assign_slash = take_assign
after_of TokenType.define = take_define
after_of _ = leave

-- The branches of parsePostDot.
pub data Dotted : Type 0 where
  dot_name dot_oper dot_class no_dotted : Dotted

unfoldable pub dotted_of : TokenType → Dotted
dotted_of TokenType.ident = dot_name
dotted_of TokenType.oper_kw = dot_oper
dotted_of TokenType.class_kw = dot_class
dotted_of _ = no_dotted

-- The branches of parseIString's loop, for a type and whether the text is empty.
pub data Part : Type 0 where
  part_end part_empty part_text part_name part_paren no_part : Part

unfoldable pub part_of : TokenType → Bool → Part
part_of TokenType.istr_end empty = part_end
part_of TokenType.string empty = if empty then part_empty else part_text
part_of TokenType.ident empty = part_name
part_of TokenType.lparen empty = part_paren
part_of _ empty = no_part

unfoldable pub is_empty : Bytes → Bool
is_empty [] = true
is_empty (c ∷ cs) = false

-- The enumeration of the constructor: logOrPrec is 1 and unaryPrec is 10.
unfoldable pub precedences : List (Bytes × ℕ)
precedences =
    (codes "!x", 10)
    ∷ (codes "-x", 10)
    ∷ (codes "--x", 10)
    ∷ (codes "++x", 10)
    ∷ (codes "~x", 10)
    ∷ (codes "*", 9)
    ∷ (codes "/", 9)
    ∷ (codes "%", 9)
    ∷ (codes "+", 8)
    ∷ (codes "<<", 7)
    ∷ (codes ">>", 7)
    ∷ (codes "-", 8)
    ∷ (codes "==", 6)
    ∷ (codes "!=", 6)
    ∷ (codes "<", 6)
    ∷ (codes ">", 6)
    ∷ (codes "<=", 6)
    ∷ (codes ">=", 6)
    ∷ (codes "is", 6)
    ∷ (codes "&", 5)
    ∷ (codes "^", 4)
    ∷ (codes "|", 3)
    ∷ (codes "&&", 2)
    ∷ (codes "||", 1)
    ∷ []

-- `opPrecMap.find(op)`
unfoldable pub find_precedence : Bytes → Option ℕ
unfolding find_key precedences
find_precedence op = find_key precedences op
