-- ===== src/Token.antt =====
-- parser/Token.h: the token types, in the order of the source, and the token itself.
pub mod Codes
use crack.Location.{Location}
use crack.Prelude.{ℕ, ◌==◌, Bool, true, false, Bytes}

pub data TokenType : Type 0 where
  ann bit_and bit_lsh bit_or bit_rsh bit_xor alias_kw break_kw case_kw catch_kw : TokenType
  class_kw const_kw continue_kw dollar enum_kw for_kw else_kw if_kw import_kw : TokenType
  in_kw is_kw lambda_kw module_kw null_kw on_kw oper_kw return_kw switch_kw : TokenType
  throw_kw try_kw typeof_kw while_kw assign assign_and assign_asterisk : TokenType
  assign_lsh assign_or assign_rsh assign_xor assign_minus assign_percent : TokenType
  assign_plus assign_slash asterisk bang colon comma decr define dot end eq ge : TokenType
  gt ident incr integer lbracket lcurly le lparen lt minus ne percent plus quest : TokenType
  rbracket rcurly rparen semi slash string tilde istr_begin istr_end logic_and : TokenType
  logic_or float_lit octal_lit hex_lit bin_lit scoping do_kw doc pop_err_ctx : TokenType
  file_name line_number : TokenType

-- The values that the enumeration gives its members.
unfoldable pub type_code : TokenType → ℕ
type_code ann = 0
type_code bit_and = 1
type_code bit_lsh = 2
type_code bit_or = 3
type_code bit_rsh = 4
type_code bit_xor = 5
type_code alias_kw = 6
type_code break_kw = 7
type_code case_kw = 8
type_code catch_kw = 9
type_code class_kw = 10
type_code const_kw = 11
type_code continue_kw = 12
type_code dollar = 13
type_code enum_kw = 14
type_code for_kw = 15
type_code else_kw = 16
type_code if_kw = 17
type_code import_kw = 18
type_code in_kw = 19
type_code is_kw = 20
type_code lambda_kw = 21
type_code module_kw = 22
type_code null_kw = 23
type_code on_kw = 24
type_code oper_kw = 25
type_code return_kw = 26
type_code switch_kw = 27
type_code throw_kw = 28
type_code try_kw = 29
type_code typeof_kw = 30
type_code while_kw = 31
type_code assign = 32
type_code assign_and = 33
type_code assign_asterisk = 34
type_code assign_lsh = 35
type_code assign_or = 36
type_code assign_rsh = 37
type_code assign_xor = 38
type_code assign_minus = 39
type_code assign_percent = 40
type_code assign_plus = 41
type_code assign_slash = 42
type_code asterisk = 43
type_code bang = 44
type_code colon = 45
type_code comma = 46
type_code decr = 47
type_code define = 48
type_code dot = 49
type_code end = 50
type_code eq = 51
type_code ge = 52
type_code gt = 53
type_code ident = 54
type_code incr = 55
type_code integer = 56
type_code lbracket = 57
type_code lcurly = 58
type_code le = 59
type_code lparen = 60
type_code lt = 61
type_code minus = 62
type_code ne = 63
type_code percent = 64
type_code plus = 65
type_code quest = 66
type_code rbracket = 67
type_code rcurly = 68
type_code rparen = 69
type_code semi = 70
type_code slash = 71
type_code string = 72
type_code tilde = 73
type_code istr_begin = 74
type_code istr_end = 75
type_code logic_and = 76
type_code logic_or = 77
type_code float_lit = 78
type_code octal_lit = 79
type_code hex_lit = 80
type_code bin_lit = 81
type_code scoping = 82
type_code do_kw = 83
type_code doc = 84
type_code pop_err_ctx = 85
type_code file_name = 125
type_code line_number = 126

infix 50 ◌is◌
-- Types are compared as the integers that they are.
abbrev pub ◌is◌ : TokenType → TokenType → Bool
t is u = type_code t == type_code u

pub record Token : Type 0 where
  pub type : TokenType
  pub text : Bytes
  pub loc : Location

unfoldable pub is_bin_op : TokenType → Bool
is_bin_op plus = true
is_bin_op minus = true
is_bin_op asterisk = true
is_bin_op slash = true
is_bin_op percent = true
is_bin_op eq = true
is_bin_op ne = true
is_bin_op lt = true
is_bin_op gt = true
is_bin_op le = true
is_bin_op ge = true
is_bin_op is_kw = true
is_bin_op logic_and = true
is_bin_op logic_or = true
is_bin_op bit_and = true
is_bin_op bit_or = true
is_bin_op bit_xor = true
is_bin_op bit_lsh = true
is_bin_op bit_rsh = true
is_bin_op _ = false

unfoldable pub is_aug_assign : TokenType → Bool
is_aug_assign assign_and = true
is_aug_assign assign_asterisk = true
is_aug_assign assign_lsh = true
is_aug_assign assign_or = true
is_aug_assign assign_rsh = true
is_aug_assign assign_xor = true
is_aug_assign assign_minus = true
is_aug_assign assign_percent = true
is_aug_assign assign_plus = true
is_aug_assign assign_slash = true
is_aug_assign _ = false
