-- ===== src/Grammar/Members.antt =====
-- parser/Parser.cc: parseScoping, parseOperSpec, the adjacent strings of parseExpression, the member
-- that parsePostDot reads and the calls of parseIString.
use crack.Grammar.{
  Parse, pure, fail, act, error, unexpected, or_fail, gets, modify, put_back, require, get_token,
  ◌>>=◌, ◌>>◌,
}
use crack.Grammar.Interface.{Language}
use crack.Grammar.Operators.{wrap_in_null_check}
use crack.Prelude.{
  ℕ, zero, suc, if◌then◌else◌, Option, some, none, ◌++◌, Bytes, codes, bytes_eq, out_of_fuel, ◌||◌,
  ◌&&◌,
}
use crack.Token.{Token, TokenType, ◌is◌, is_bin_op, is_aug_assign}

-- The branches of parseOperSpec.
pub data Spec : Type 0 where
  plain_spec bump_spec attr_spec x_spec index_spec convert_spec reverse_spec no_spec : Spec

unfoldable pub named_spec : Bytes → Spec
named_spec name =
    if bytes_eq name (codes "init")
      || bytes_eq name (codes "release")
      || bytes_eq name (codes "bind")
      || bytes_eq name (codes "del")
      || bytes_eq name (codes "call")
    then plain_spec
    else if bytes_eq name (codes "x")
    then x_spec
    else if bytes_eq name (codes "to") || bytes_eq name (codes "from")
    then convert_spec
    else if bytes_eq name (codes "r")
    then reverse_spec
    else no_spec

unfoldable pub spec_of : TokenType → Bytes → Spec
unfolding named_spec is_aug_assign
spec_of TokenType.minus name = plain_spec
spec_of TokenType.tilde name = plain_spec
spec_of TokenType.bang name = plain_spec
spec_of TokenType.eq name = plain_spec
spec_of TokenType.ne name = plain_spec
spec_of TokenType.lt name = plain_spec
spec_of TokenType.le name = plain_spec
spec_of TokenType.ge name = plain_spec
spec_of TokenType.gt name = plain_spec
spec_of TokenType.plus name = plain_spec
spec_of TokenType.slash name = plain_spec
spec_of TokenType.asterisk name = plain_spec
spec_of TokenType.percent name = plain_spec
spec_of TokenType.incr name = bump_spec
spec_of TokenType.decr name = bump_spec
spec_of TokenType.dot name = attr_spec
spec_of TokenType.lbracket name = index_spec
spec_of TokenType.ident name = named_spec name
spec_of t name = if is_aug_assign t then plain_spec else no_spec

module _ (L : Language) where
  -- A member of a namespace, as parseScoping finds it.
  abbrev pub scoped_member : L.Namespace → Token → Parse L.Context L.Def
  scoped_member ns t = do
    require (t.type is TokenType.ident)
        (error t (codes "identifier expected following scoping operator."))
    modify (L.note_ident t.loc)
    found ← act (L.look_up_in ns t.text)
    var ← or_fail found (
        error t (
          codes "Identifier " ++ (t.text ++ (codes " is not a member of " ++ L.namespace_name ns))))
    act (L.check_accessible (some var) t.text)
    pure (L.explicitly_scoped var)

  abbrev pub Scoped : Type 0
  Scoped = Option (L.Def × Token)

  unfoldable pub next_scope :
      Option L.Namespace → Scoped → (L.Namespace → Parse L.Context Scoped) → Parse L.Context Scoped
  next_scope (some ns) got go = go ns
  next_scope none got go = pure got

  -- A round of the loop of parseScoping, behind the operator.
  unfoldable pub behind_scope :
      L.Namespace → (L.Namespace → Scoped → Parse L.Context Scoped) → Parse L.Context Scoped
  behind_scope ns go = do
    ident ← get_token L
    var ← scoped_member ns ident
    next_scope (L.def_namespace var) (some (var, ident)) λ ns'. go ns' (some (var, ident))

  -- A value that is no namespace ends the chain, and its token is not put back.
  unfoldable pub scoping : ℕ → L.Namespace → Scoped → Parse L.Context Scoped
  unfolding behind_scope next_scope
  scoping zero ns got = fail out_of_fuel
  scoping (suc f) ns got = do
    t ← get_token L
    let more = behind_scope ns (scoping f)
    let ends = put_back t >> pure got
    if t.type is TokenType.scoping then more else ends

  -- Adjacent strings are one constant.
  unfoldable pub more_strings : ℕ → Bytes → Token → Parse L.Context Bytes
  more_strings zero text t = fail out_of_fuel
  more_strings (suc f) text t =
      let more = get_token L >>= more_strings f (text ++ t.text) in
      let ends = put_back t >> pure text in if t.type is TokenType.string then more else ends

  abbrev pub bump_operator : Token → Parse L.Context (Bytes × Bytes)
  bump_operator t = do
    t2 ← get_token L
    require (t2.type is TokenType.ident && bytes_eq t2.text (codes "x"))
        (unexpected t2 (codes "expected an 'x' after oper " ++ t.text))
    pure (codes "oper " ++ (t.text ++ codes "x"), codes "x")

  abbrev pub attr_operator : Parse L.Context (Bytes × Bytes)
  attr_operator = do
    t2 ← get_token L
    require (t2.type is TokenType.ident)
        (unexpected t2 (codes "Identifier expected after 'oper .'"))
    t3 ← get_token L
    if t3.type is TokenType.assign
        then pure (codes "oper ." ++ (t2.text ++ codes "="), t2.text)
        else put_back t3 >> pure (codes "oper ." ++ t2.text, t2.text)

  abbrev pub x_operator : Parse L.Context (Bytes × Bytes)
  x_operator = do
    t ← get_token L
    require (t.type is TokenType.incr || t.type is TokenType.decr)
        (unexpected t (codes "Expected an increment or decrement operator after oper x."))
    pure (codes "oper x" ++ t.text, codes "x")

  abbrev pub index_operator : Parse L.Context (Bytes × Bytes)
  index_operator = do
    t ← get_token L
    require (t.type is TokenType.rbracket) (error t (codes "Expected right bracket in 'oper ['"))
    t2 ← get_token L
    if t2.type is TokenType.assign
        then pure (codes "oper []=", codes "x")
        else put_back t2 >> pure (codes "oper []", codes "x")

  abbrev pub reverse_operator : Parse L.Context (Bytes × Bytes)
  reverse_operator = do
    t ← get_token L
    require (is_bin_op t.type)
        (error t (codes "Expected a binary operator after reverse designator"))
    pure (codes "oper r" ++ t.text, codes "x")

  abbrev pub convert_operator : Parse L.Context L.TypeDef → Bytes → Parse L.Context (Bytes × Bytes)
  convert_operator type_spec name = do
    type ← type_spec
    pure (codes "oper " ++ (name ++ (codes " " ++ L.full_name type)), codes "x")

  abbrev pub operator : Parse L.Context L.TypeDef → Spec → Token → Parse L.Context (Bytes × Bytes)
  operator type_spec plain_spec t = pure (codes "oper " ++ t.text, t.text)
  operator type_spec bump_spec t = bump_operator t
  operator type_spec attr_spec t = attr_operator
  operator type_spec x_spec t = x_operator
  operator type_spec index_spec t = index_operator
  operator type_spec convert_spec t = convert_operator type_spec t.text
  operator type_spec reverse_spec t = reverse_operator
  operator type_spec no_spec t = unexpected t (codes "expected legal operator name or symbol.")

  -- parseOperSpec, with parseTypeSpec for the conversions: the name and what access is checked for
  unfoldable pub oper_spec : Parse L.Context L.TypeDef → Parse L.Context (Bytes × Bytes)
  unfolding spec_of is_bin_op
  oper_spec type_spec = do t ← get_token L; operator type_spec (spec_of t.type t.text) t

  abbrev pub Selected : Type 0
  Selected = L.Expr × Option L.TypeDef

  -- The end of parsePostDot.
  abbrev pub selected : L.Expr → L.Def → Bytes → Parse L.Context Selected
  selected e def access = do act (L.check_accessible (some def) access); pure (e, L.def_type def)

  abbrev pub no_member : L.Expr → Option L.TypeDef → Token → Bytes → Parse L.Context Selected
  no_member e (some T) t name = error t (
      codes "Type object "
      ++ (L.type_name T
          ++ (codes " has no member named " ++ (name ++ codes ", nor does the type itself."))))
  no_member e none t name =
      error t
        (codes "Instance of " ++ (L.type_name (L.type_of e) ++ (codes " has no member " ++ name)))

  abbrev pub usable : L.Def → Token → Bytes → Parse L.Context (Unit {0})
  usable def t name = do
    s ← gets (λ s. s)
    require (L.is_usable def s)
        (error t (codes "Instance member " ++ (name ++ codes " is not usable from this context.")))

  abbrev pub type_member :
      Option L.Expr
      → L.Expr
      → Option L.TypeDef
      → Option L.Def
      → Token
      → Bytes
      → Bytes
      → Parse L.Context Selected
  type_member primary e type (some def) t name access = do
    usable def t name
    ref ← act (L.create_var_ref (L.explicitly_scoped def))
    wrapped ← wrap_in_null_check L primary ref
    selected wrapped (L.explicitly_scoped def) access
  type_member primary e type none t name access = no_member e type t name

  abbrev pub find_in_type : Option L.TypeDef → Bytes → Parse L.Context (Option L.Def)
  find_in_type (some T) name = act (L.look_up_in (L.type_namespace T) name)
  find_in_type none name = pure none

  abbrev pub or_type_member :
      Option L.Expr
      → L.Expr
      → Option L.TypeDef
      → Option L.Expr
      → Token
      → Bytes
      → Bytes
      → Parse L.Context Selected
  or_type_member primary e type (some accessor) t name access = pure (accessor, type)
  or_type_member primary e type none t name access = do
    found ← find_in_type type name
    type_member primary e type found t name access

  abbrev pub member_value : L.Expr → L.Def → Option L.TypeDef → Parse L.Context L.Expr
  member_value e def (some T) = act (L.create_var_ref def)
  member_value e def none = pure (L.deref e def)

  abbrev pub own_member :
      Option L.Expr
      → L.Expr
      → Option L.TypeDef
      → Option L.Def
      → Token
      → Bytes
      → Bytes
      → Parse L.Context Selected
  own_member primary e type (some def) t name access = do
    value ← member_value e def (L.def_type def)
    wrapped ← wrap_in_null_check L primary value
    selected wrapped def access
  own_member primary e type none t name access = do
    accessor ← act (L.make_accessor e name)
    or_type_member primary e type accessor t name access

  -- parsePostDot once the name is read
  unfoldable pub member :
      Option L.Expr → L.Expr → Option L.TypeDef → Token → Bytes → Bytes → Parse L.Context Selected
  unfolding wrap_in_null_check
  member primary e type t name access = do
    def ← act (L.look_up_in (L.type_namespace (L.type_of e)) name)
    own_member primary e type def t name access
