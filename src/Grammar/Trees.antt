-- ===== src/Grammar/Trees.antt =====
-- A context that answers every lookup and builds trees, and the printing of trees of operators with
-- only the parentheses that the table of precedences asks for.
use crack.Grammar.Interface.{Language, done}
use crack.Grammar.Kinds.{find_precedence, begin_of, after_of, start_prefix, take_bin, leave}
use crack.Grammar.Rounds.{bump_suffix}
use crack.Location.{no_location}
use crack.Consts.Signed.{pos}
use crack.Prelude.{
  ℕ, leb, ltb, ◌<◌, ◌≤◌, Bool, true, false, Option, some, none, List, [], ◌∷◌, ◌++◌, Bytes, codes,
  ◌≡◌,
}
use crack.Token.{Token, TokenType, ◌is◌}

-- What is built: a name, or the call of an operator.
pub data Built : Type 0 where
  named : Bytes → Built
  unary : Bytes → Built → Built
  binary : Bytes → Built → Built → Built
  other : Built

-- A call of a method, with the receiver first.
abbrev pub call : Bytes → List Built → Option Built → Built
call f [] (some a) = unary f a
call f (b ∷ []) (some a) = binary f a b
call f _ _ = other

-- Every name is a variable, and every operator is a method of its left operand.
abbrev pub trees : Language
trees = record {
  Context = Unit {0};
  Expr = Built;
  Def = Bytes;
  TypeDef = Unit {0};
  FuncDef = Bytes;
  Namespace = Unit {0};
  add_doc = λ _ s. s;
  note_ident = λ _ s. s;
  to_ident = λ s. s;
  set_location = λ _ s. s;
  location = λ _. no_location;
  pop_error_context = λ s. s;
  enter_inert = λ s. s;
  leave_inert = λ _ s. s;
  type_of = λ _. tt;
  is_int_const = λ _. false;
  is_float_const = λ _. false;
  has_no_getter = λ _. false;
  var_ref_def = λ _. none;
  def_type = λ _. none;
  def_namespace = λ _. none;
  type_def = λ _. [];
  type_namespace = λ _. tt;
  is_generic = λ _. false;
  is_method = λ _. true;
  is_reverse = λ _. false;
  explicitly_scoped = λ d. d;
  is_usable = λ _ _. true;
  current_namespace = λ _. tt;
  is_in_method = λ _. false;
  type_name = λ _. [];
  full_name = λ _. [];
  def_name = λ d. d;
  namespace_name = λ _. [];
  args_text = λ _. [];
  look_up = λ n s. done (some n) s;
  look_up_in = λ _ n s. done (some n) s;
  look_up_func = λ n _ _ s. done (some n) s;
  look_up_no_args = λ n _ s. done (some n) s;
  constructor_func = λ _ _ s. done [] s;
  get_specialization = λ _ _ s. done tt s;
  check_accessible = λ _ _ s. done tt s;
  check_for_redefine = λ _ _ s. done tt s;
  check_for_external_overload = λ _ s. done tt s;
  strtoull = λ _ _. 0;
  strtoll = λ _ _. pos 0;
  null_const = λ _. other;
  str_const = λ t s. done (named t) s;
  int_const = λ _ s. done other s;
  byte_const = λ _ s. done other s;
  uint_const = λ _ s. done other s;
  float_const = λ t s. done (named t) s;
  create_var_ref = λ d s. done (named d) s;
  ident_ref = λ t s. done (named t.text) s;
  name_ref = λ d _ s. done (named d) s;
  make_this_ref = λ _ s. done none s;
  make_accessor = λ _ _ s. done none s;
  create_call = λ f args r s. done (call f args r) s;
  make_call = λ e _ s. done e s;
  fold = λ e. some e;
  deref = λ e _. e;
  get_register = λ _ s. done other s;
  set_register = λ _ e. e;
  safe_nav = λ _ _ e. e;
  ternary = λ e _ _ s. done e s;
  sequence = λ _ _. other;
  const_sequence = λ _ _ s. done other s;
  assign = λ e _ _ s. done e s;
  define = λ _ t s. done t.text s;
  assign_def = λ _ _ e s. done e s;
  return_type = λ _. tt;
  is_void = λ _. false;
  function_def = λ _ _ _ s. done ([], 0) s;
  class_def = λ _ s. done (tt, 0) s;
}

-- A name, or an operator's token with its operands; a binary one with its level.
pub data Tree : Type 0 where
  name : Token → Tree
  sign : Token → Tree → Tree
  link : Token → ℕ → Tree → Tree → Tree

-- How tight a tree holds together: the level of its operator, or more than any level.
unfoldable pub level : Tree → ℕ
level (name t) = 11
level (sign t x) = 10
level (link t l x y) = l

abbrev plain_token : TokenType → Bytes → Token
plain_token type text = record { type = type; text = text; loc = no_location }

abbrev pub open_paren : Token
open_paren = plain_token TokenType.lparen (codes "(")

abbrev pub close_paren : Token
close_paren = plain_token TokenType.rparen (codes ")")

abbrev pub wrap : Bool → (List Token → List Token) → List Token → List Token
wrap true printed us = open_paren ∷ printed (close_paren ∷ us)
wrap false printed us = printed us

-- The tokens of a tree in front of others: a left operand of the same level stands as it is, since
-- the operators group to the left, and a right one of the same level stands in parentheses.
unfoldable pub print : Tree → List Token → List Token
unfolding level
print (name t) us = t ∷ us
print (sign t x) us = t ∷ wrap (ltb (level x) 10) (print x) us
print (link t l x y) us = wrap (ltb (level x) l) (print x) (t ∷ wrap (leb (level y) l) (print y) us)

-- What parseExpression is to make of it.
unfoldable pub build : Tree → Built
build (name t) = named t.text
build (sign t x) = unary (codes "oper " ++ (t.text ++ bump_suffix t)) (build x)
build (link t l x y) = binary (codes "oper " ++ t.text) (build x) (build y)

-- Neither a doc string nor the end of an error context.
pub record IsPlain (t : Token) : Type 0 where
  pub no_doc : (t.type is TokenType.doc) ≡ false
  pub no_end : (t.type is TokenType.pop_err_ctx) ≡ false

-- The tokens are those of names and operators, with the precedences of the table.
pub data IsWell : Tree → Type 0 where
  well_name : {t : Token} → t.type ≡ TokenType.ident → IsWell (name t)
  well_sign :
      {t : Token} {x : Tree}
      → IsPlain t
      → begin_of t.type ≡ start_prefix
      → find_precedence (t.text ++ codes "x") ≡ some 10
      → IsWell x
      → IsWell (sign t x)
  well_link :
      {t : Token} {l : ℕ} {x y : Tree}
      → IsPlain t
      → after_of t.type ≡ take_bin
      → find_precedence t.text ≡ some l
      → 0 < l
      → l < 10
      → IsWell x
      → IsWell y
      → IsWell (link t l x y)

-- A token at which an expression of precedence `l` stops.
pub data Stop (l : ℕ) (t : Token) : Type 0 where
  ended : IsPlain t → after_of t.type ≡ leave → Stop l t
  weaker :
      {q : ℕ}
      → IsPlain t
      → after_of t.type ≡ take_bin
      → find_precedence t.text ≡ some q
      → q ≤ l
      → Stop l t
