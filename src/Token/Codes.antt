-- ===== src/Token/Codes.antt =====
-- `static_cast<Token::Type>` of a number that was written as a token type.
use crack.Prelude.{ℕ, ◌==◌, if◌then◌else◌, Option, some, none, ◌≡◌, refl, List, [], ◌∷◌}
use crack.Token.{TokenType, type_code}
use crack.Token.{
  ann, bit_and, bit_lsh, bit_or, bit_rsh, bit_xor, alias_kw, break_kw, case_kw, catch_kw, class_kw,
  const_kw, continue_kw, dollar, enum_kw, for_kw, else_kw, if_kw, import_kw, in_kw, is_kw,
  lambda_kw, module_kw, null_kw, on_kw, oper_kw, return_kw, switch_kw, throw_kw, try_kw, typeof_kw,
  while_kw, assign, assign_and, assign_asterisk, assign_lsh, assign_or, assign_rsh, assign_xor,
  assign_minus, assign_percent, assign_plus, assign_slash, asterisk, bang, colon, comma, decr,
  define, dot, end, eq, ge, gt, ident, incr, integer, lbracket, lcurly, le, lparen, lt, minus, ne,
  percent, plus, quest, rbracket, rcurly, rparen, semi, slash, string, tilde, istr_begin, istr_end,
  logic_and, logic_or, float_lit, octal_lit, hex_lit, bin_lit, scoping, do_kw, doc, pop_err_ctx,
  file_name, line_number,
}

abbrev find_code : ℕ → List TokenType → Option TokenType
find_code n [] = none
find_code n (t ∷ ts) = if type_code t == n then some t else find_code n ts

-- Every member of the enumeration.
abbrev pub all_types : List TokenType
all_types =
    ann ∷ bit_and ∷ bit_lsh ∷ bit_or ∷ bit_rsh ∷ bit_xor ∷ alias_kw ∷ break_kw ∷ case_kw ∷ catch_kw
    ∷ class_kw ∷ const_kw ∷ continue_kw ∷ dollar ∷ enum_kw ∷ for_kw ∷ else_kw ∷ if_kw ∷ import_kw
    ∷ in_kw ∷ is_kw ∷ lambda_kw ∷ module_kw ∷ null_kw ∷ on_kw ∷ oper_kw ∷ return_kw ∷ switch_kw
    ∷ throw_kw ∷ try_kw ∷ typeof_kw ∷ while_kw ∷ assign ∷ assign_and ∷ assign_asterisk ∷ assign_lsh
    ∷ assign_or ∷ assign_rsh ∷ assign_xor ∷ assign_minus ∷ assign_percent ∷ assign_plus
    ∷ assign_slash ∷ asterisk ∷ bang ∷ colon ∷ comma ∷ decr ∷ define ∷ dot ∷ end ∷ eq ∷ ge ∷ gt
    ∷ ident ∷ incr ∷ integer ∷ lbracket ∷ lcurly ∷ le ∷ lparen ∷ lt ∷ minus ∷ ne ∷ percent ∷ plus
    ∷ quest ∷ rbracket ∷ rcurly ∷ rparen ∷ semi ∷ slash ∷ string ∷ tilde ∷ istr_begin ∷ istr_end
    ∷ logic_and ∷ logic_or ∷ float_lit ∷ octal_lit ∷ hex_lit ∷ bin_lit ∷ scoping ∷ do_kw ∷ doc
    ∷ pop_err_ctx ∷ file_name ∷ line_number ∷ []

-- A number that is no member's value has no name: `none`.
unfoldable pub type_of_code : ℕ → Option TokenType
unfolding type_code
type_of_code n = find_code n all_types

-- The cast gives back the type that was written.
pub type_of_code-type_code : (t : TokenType) → type_of_code (type_code t) ≡ some t
unfolding type_of_code type_code
type_of_code-type_code ann = refl
type_of_code-type_code _ = refl
