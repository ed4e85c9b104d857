-- ===== src/Grammar/Rounds.antt =====
-- parser/Parser.cc: the steps of parseExpression, parseSecondary, parsePrimary and parseAnyDef that
-- call none of these.
use crack.Grammar.{
  Parse, pure, act, error, unexpected, gets, modify, put_back, require, end_token, get_token, ◌>>=◌,
  ◌>>◌,
}
use crack.Grammar.Interface.{Language, Acted, done, refused}
use crack.Grammar.Kinds.{Begin, start_int, start_float}
use crack.Grammar.Operators.{context_error, const_int}
use crack.Prelude.{
  ℕ, zero, suc, Bool, true, false, not, ◌||◌, if◌then◌else◌, Option, some, none, List, [], ◌∷◌,
  ◌++◌, Bytes, codes, Outcome, ok, parse_error,
}
use crack.Token.{Token, TokenType, ◌is◌}

unfoldable pub drop : ℕ → List Token → List Token
drop zero ts = ts
drop (suc n) [] = []
drop (suc n) (t ∷ ts) = drop n ts

-- Toker::getToken, which the parser calls itself behind a `!`
unfoldable pub raw_token : {S : Type 0} → Parse S Token
raw_token ([], s) = ok (end_token, ([], s))
raw_token (t ∷ ts, s) = ok (t, (ts, s))

abbrev pub no_getter : Bytes
no_getter = codes "Attempt to evaluate attribute with no getter."

abbrev pub bump_suffix : Token → Bytes
bump_suffix t = if t.type is TokenType.incr || t.type is TokenType.decr then codes "x" else []

module _ (L : Language) where
  abbrev pub Primary : Type 0
  Primary = Option L.Expr × Token

  -- convertTypeRef
  unfoldable pub convert_type_ref : L.Expr → Option L.TypeDef
  convert_type_ref e = elim (L.var_ref_def e) [ some def ↦ L.def_type def | none ↦ none ]

  -- A definition inside an expression.
  unfoldable pub defined_by :
      {A : Type 0} → List Token → Acted L.Context (A × ℕ) → Outcome (A × (List Token × L.Context))
  defined_by ts (done (a, n) s) = ok (a, (drop n ts, s))
  defined_by ts (refused l msg) = parse_error l msg

  abbrev pub definition :
      {A : Type 0} → (List Token → L.Context → Acted L.Context (A × ℕ)) → Parse L.Context A
  definition read (ts, s) = defined_by ts (read ts s)

  abbrev pub with_getter : L.Expr → Bytes → Parse L.Context (Unit {0})
  with_getter e msg = require (not (L.has_no_getter e)) (context_error L msg)

  -- The register of a safe navigation: what sets it, and the expression that reads it.
  abbrev pub safe_receiver : Bool → L.Expr → Parse L.Context (Option L.Expr × L.Expr)
  safe_receiver false e = pure (none, e)
  safe_receiver true e = do
    reg ← act (L.get_register (L.type_of e))
    pure (some (L.set_register reg e), reg)

  abbrev pub plus_const : Begin → Token → Parse L.Context L.Expr
  plus_const (start_int base) t = const_int L t.text base
  plus_const start_float t = act (L.float_const t.text)
  plus_const _ t = unexpected t (codes "unexpected unary +")

  abbrev pub accessor_of : Option L.Expr → Bytes → Parse L.Context (Option L.Expr)
  accessor_of (some this) name = act (L.make_accessor this name)
  accessor_of none name = pure none

  abbrev pub implicit_this : Bytes → Parse L.Context (Option L.Expr)
  implicit_this name = do
    inside ← gets L.is_in_method
    if inside then act (L.make_this_ref name) else pure none

  abbrev pub check_again : Token → Option L.Def → Parse L.Context (Unit {0})
  check_again t (some def) = act (L.check_for_redefine t def)
  check_again t none = pure tt

  -- The definition that an identifier stands for, unless it is about to be defined.
  abbrev pub defined : Token → Parse L.Context (Option L.Def)
  defined t = do
    def ← act (L.look_up t.text)
    t2 ← get_token L
    put_back t2
    modify (L.set_location t.loc)
    if t2.type is TokenType.define then check_again t def >> pure none else pure def

  abbrev pub scope_of : Option L.TypeDef → Parse L.Context L.Namespace
  scope_of (some T) = pure (L.type_namespace T)
  scope_of none = gets L.current_namespace

  abbrev pub not_a_member : Token → L.Namespace → Bytes
  not_a_member t ns =
      codes "Identifier " ++ (t.text ++ (codes " is not a member of " ++ L.namespace_name ns))

  -- The pointer to a type, as the pointer to a definition that it also is.
  abbrev pub type_as_def : Option L.TypeDef → Option L.Def
  type_as_def (some T) = some (L.type_def T)
  type_as_def none = none

  abbrev pub behind_comma : Token → Parse L.Context Token
  behind_comma t = if t.type is TokenType.comma then get_token L else pure t

  abbrev pub behind_element : Token → Parse L.Context Token
  behind_element t =
      if t.type is TokenType.comma
      then get_token L
      else if t.type is TokenType.rbracket
      then pure t
      else unexpected t (codes "Expected comma or right bracket after element")

  -- A type that a specializer can follow.
  abbrev pub generic_of : L.Def → Option L.TypeDef → Token → Parse L.Context L.TypeDef
  generic_of def (some T) t =
      if L.is_generic T then pure T else error t (L.def_name def ++ codes " is not a generic type.")
  generic_of def none t = error t (L.def_name def ++ codes " is not a generic type.")
