-- ===== src/Grammar/Descent.antt =====
-- parser/Parser.cc: parseExpression and the functions that it calls with each other, which stand in
-- one block since each of them leads back to parseExpression. A call costs a unit of fuel. Where the
-- source passes a flag or a null pointer, so do these: `first` says that the expression is still that
-- of the primary, and an identifier that is no sole one is the end token.
use crack.Grammar.{
  Parse, pure, fail, act, error, unexpected, or_fail, gets, modify, put_back, require, end_token,
  get_token, ◌>>=◌, ◌>>◌,
}
use crack.Grammar.Formats.{open_format, format_call, close_format}
use crack.Grammar.Interface.{Language}
use crack.Grammar.Kinds.{
  Begin, begin_of, After, after_of, Dotted, dotted_of, Part, part_of, is_empty,
}
use crack.Grammar.Kinds.{
  start_null, start_paren, start_typeof, start_name, start_text, start_istring, start_int,
  start_float, start_plus, start_prefix, start_lambda, start_class, start_curly, no_start,
  take_attr, take_member, take_index, take_call, take_bump, take_bin, take_format, take_quest,
  take_bang, take_assign, take_define, leave, dot_name, dot_oper, dot_class, no_dotted, part_end,
  part_empty, part_text, part_name, part_paren, no_part,
}
use crack.Grammar.Members.{scoping, more_strings, oper_spec, member, usable, Selected}
use crack.Grammar.Operators.{
  context_error, get_precedence, bin_call, op_call, fold_call, index_call, make_assign,
  emit_oper_class, wrap_in_null_check, const_int,
}
use crack.Prelude.{
  ℕ, zero, suc, leb, Bool, true, false, not, ◌&&◌, ◌||◌, Option, some, none, List, [], ◌∷◌, ◌++◌,
  Bytes, codes, null_pointer, out_of_fuel,
}
use crack.Grammar.Rounds.{
  raw_token, drop, Primary, convert_type_ref, definition, with_getter, no_getter, safe_receiver,
  bump_suffix, plus_const, accessor_of, implicit_this, check_again, defined, scope_of, not_a_member,
  type_as_def, generic_of, behind_comma, behind_element,
}
use crack.Token.{Token, TokenType, ◌is◌}

module _ (L : Language) where
  unfoldable mutual
    unfolding raw_token drop convert_type_ref begin_of after_of dotted_of part_of scoping
        more_strings oper_spec

    pub expression : ℕ → ℕ → Parse L.Context L.Expr
    expression zero p = fail out_of_fuel
    expression (suc f) p = do t ← get_token L; begin f (begin_of t.type) p t

    -- The ladder of parseExpression.
    pub begin : ℕ → Begin → ℕ → Token → Parse L.Context L.Expr
    begin zero kind p t = fail out_of_fuel
    begin (suc f) start_null p t = secondary f p true end_token (L.null_const none)
    begin (suc f) start_paren p t = do
      e ← expression f 0
      t2 ← get_token L
      require (t2.type is TokenType.rparen) (unexpected t2 (codes "expected a right paren"))
      secondary f p true end_token e
    begin (suc f) start_typeof p t = do
      T ← parse_typeof f
      e ← act (L.create_var_ref (L.type_def T))
      secondary f p true end_token e
    begin (suc f) start_name p t = do
      modify (L.note_ident t.loc)
      put_back t
      r ← primary f
      behind_primary f p r.0 r.1
    begin (suc f) start_text p t = do
      text ← more_strings L f [] t
      e ← act (L.str_const text)
      secondary f p true end_token e
    begin (suc f) start_istring p t =
        error t (codes "Interpolated strings may not be used as expressions.")
    begin (suc f) (start_int base) p t = do
      e ← const_int L t.text base
      secondary f p true end_token e
    begin (suc f) start_float p t = do
      e ← act (L.float_const t.text)
      secondary f p true end_token e
    begin (suc f) start_plus p t = do
      t2 ← get_token L
      e ← plus_const L (begin_of t2.type) t2
      secondary f p true end_token e
    begin (suc f) start_prefix p t = do
      level ← get_precedence L (t.text ++ codes "x")
      operand ← expression f level
      let symbol : Bytes = codes "oper " ++ (t.text ++ bump_suffix t)
      call ← op_call L symbol symbol t operand
      e ← fold_call L call
      secondary f p true end_token e
    begin (suc f) start_lambda p t = do
      T ← type_spec f
      t2 ← get_token L
      require (t2.type is TokenType.lparen)
          (unexpected t2 (codes "Parenthesis expected for lambda parameter list"))
      def ← definition L (L.function_def T t)
      e ← act (L.create_var_ref def)
      secondary f p true end_token e
    begin (suc f) start_class p t = do
      T ← definition L L.class_def
      act (L.name_ref (L.type_def T) t)
    begin (suc f) start_curly p t =
        unexpected t (codes "blocks as expressions are not supported yet")
    begin (suc f) no_start p t = unexpected t (codes "expected an expression")

    -- parseSecondary, for the primary with no expression and for the one that has one
    pub behind_primary : ℕ → ℕ → Option L.Expr → Token → Parse L.Context L.Expr
    behind_primary zero p e ident = fail out_of_fuel
    behind_primary (suc f) p (some e) ident = secondary f p true ident e
    behind_primary (suc f) p none ident = do
      t ← get_token L
      require (t.type is TokenType.define) (error ident (codes "Unknown identifier " ++ ident.text))
      parse_define f ident

    pub secondary : ℕ → ℕ → Bool → Token → L.Expr → Parse L.Context L.Expr
    secondary zero p first ident e = fail out_of_fuel
    secondary (suc f) p first ident e = do
      t ← get_token L
      follow f (after_of t.type) p first ident e t

    -- A round of the loop of parseSecondary.
    pub follow : ℕ → After → ℕ → Bool → Token → L.Expr → Token → Parse L.Context L.Expr
    follow zero kind p first ident e t = fail out_of_fuel
    follow (suc f) take_attr p first ident e t = do
      with_getter L e no_getter
      r ← post_dot f e none false
      secondary f p false ident r.0
    follow (suc f) take_member p first ident e t = do
      def ← or_fail (L.var_ref_def e) (fail null_pointer)
      ns ←
          or_fail (L.def_namespace def)
            (error t (codes "The scoping operator can only follow a namespace."))
      put_back t
      got ← scoping L f ns none
      found ← or_fail got (fail null_pointer)
      usable L found.0 t found.1.text
      e' ← act (L.create_var_ref found.0)
      secondary f p false ident e'
    follow (suc f) take_index p first ident e t =
        follow_bracket f (convert_type_ref L e) p ident e t
    follow (suc f) take_call p first ident e t = do
      args ← method_args f TokenType.rparen
      e' ← act (L.make_call e args)
      secondary f p false ident e'
    follow (suc f) take_bump p first ident e t = do
      let symbol : Bytes = codes "oper x" ++ t.text
      e' ← op_call L symbol symbol t e
      secondary f p false ident e'
    follow (suc f) take_bin p first ident e t = do
      level ← get_precedence L t.text
      follow_bin f (leb level p) level p ident e t
    follow (suc f) take_format p first ident e t = do
      e' ← parse_istring f e
      secondary f p false ident e'
    follow (suc f) take_quest p first ident e t = do
      t2 ← get_token L
      follow_quest f (t2.type is TokenType.dot) p ident e t t2
    follow (suc f) take_bang p first ident e t = do
      t2 ← raw_token
      follow_bang f (t2.type is TokenType.is_kw) p ident e t t2
    follow (suc f) take_assign p first ident e t = do
      val ← expression f 0
      e' ← make_assign L e t val
      secondary f p false ident e'
    follow (suc f) take_define p first ident e t = do
      require (first && not (ident.type is TokenType.end))
          (error t (codes "The define operator can not be used here."))
      existing ← act (L.look_up ident.text)
      check_again L ident existing
      parse_define f ident
    follow (suc f) leave p first ident e t = put_back t >> pure e

    -- `[` behind a type is a specializer, and the token behind that is not read again.
    pub follow_bracket : ℕ → Option L.TypeDef → ℕ → Token → L.Expr → Token → Parse L.Context L.Expr
    follow_bracket zero T p ident e t = fail out_of_fuel
    follow_bracket (suc f) (some generic) p ident e t = do
      T ← specializer f t generic
      t2 ← get_token L
      follow_type f (t2.type is TokenType.lparen) T p ident t2
    follow_bracket (suc f) none p ident e t = do e' ← index f e t; secondary f p false ident e'

    pub follow_type : ℕ → Bool → L.TypeDef → ℕ → Token → Token → Parse L.Context L.Expr
    follow_type zero called T p ident t = fail out_of_fuel
    follow_type (suc f) true T p ident t = do
      args ← method_args f TokenType.rparen
      func ← act (L.constructor_func T args)
      e ← act (L.create_call func args none)
      secondary f p false ident e
    follow_type (suc f) false T p ident t = do
      e ← act (L.create_var_ref (L.type_def T))
      follow f (after_of t.type) p false ident e t

    pub follow_bin : ℕ → Bool → ℕ → ℕ → Token → L.Expr → Token → Parse L.Context L.Expr
    follow_bin zero ends level p ident e t = fail out_of_fuel
    follow_bin (suc f) true level p ident e t = put_back t >> pure e
    follow_bin (suc f) false level p ident e t = do
      rhs ← expression f level
      e' ← bin_call L t e rhs
      secondary f p false ident e'

    pub follow_quest : ℕ → Bool → ℕ → Token → L.Expr → Token → Token → Parse L.Context L.Expr
    follow_quest zero safe p ident e t t2 = fail out_of_fuel
    follow_quest (suc f) true p ident e t t2 = do
      with_getter L e no_getter
      r ← post_dot f e none true
      secondary f p false ident r.0
    follow_quest (suc f) false p ident e t t2 =
        put_back t2 >> follow_ternary f (leb 1 p) p ident e t

    -- `precedence >= logOrPrec`
    pub follow_ternary : ℕ → Bool → ℕ → Token → L.Expr → Token → Parse L.Context L.Expr
    follow_ternary zero ends p ident e t = fail out_of_fuel
    follow_ternary (suc f) true p ident e t = put_back t >> pure e
    follow_ternary (suc f) false p ident e t = do
      value ← expression f 0
      t2 ← get_token L
      require (t2.type is TokenType.colon) (unexpected t2 (codes "expected colon."))
      other ← expression f 0
      e' ← act (L.ternary e value (some other))
      secondary f p false ident e'

    pub follow_bang : ℕ → Bool → ℕ → Token → L.Expr → Token → Token → Parse L.Context L.Expr
    follow_bang zero sugar p ident e t t2 = fail out_of_fuel
    follow_bang (suc f) true p ident e t t2 = do
      level ← get_precedence L t2.text
      follow_not_is f (leb level p) level p ident e t t2
    follow_bang (suc f) false p ident e t t2 = do
      T ←
          or_fail (convert_type_ref L e)
            (error t (codes "Exclamation point can not follow a non-type expression"))
      require (t2.type is TokenType.lbracket)
          (error t2 (codes "Sequence initializer ('[ ... ]') expected after 'type!'"))
      e' ← const_sequence f T
      secondary f p false ident e'

    -- The keyword has been read and is not put back.
    pub follow_not_is : ℕ → Bool → ℕ → ℕ → Token → L.Expr → Token → Token → Parse L.Context L.Expr
    follow_not_is zero ends level p ident e t t2 = fail out_of_fuel
    follow_not_is (suc f) true level p ident e t t2 = put_back t >> pure e
    follow_not_is (suc f) false level p ident e t t2 = do
      rhs ← expression f level
      is_call ← bin_call L t2 e rhs
      call ← op_call L (codes "oper !") (codes "'oper !'") t is_call
      e' ← fold_call L call
      secondary f p false ident e'

    pub parse_define : ℕ → Token → Parse L.Context L.Expr
    parse_define zero ident = fail out_of_fuel
    parse_define (suc f) ident = do
      val ← expression f 0
      act (L.check_for_external_overload val)
      with_getter L val (codes "Cannot create a variable from attribute with no getter.")
      var ← act (L.define (L.type_of val) ident)
      act (L.assign_def ident var val)

    -- `a[i]` and `a[i] = v`
    pub index : ℕ → L.Expr → Token → Parse L.Context L.Expr
    index zero e t = fail out_of_fuel
    index (suc f) e t = do
      args ← method_args f TokenType.rbracket
      t2 ← get_token L
      index_value f (t2.type is TokenType.assign) args e t t2

    pub index_value : ℕ → Bool → List L.Expr → L.Expr → Token → Token → Parse L.Context L.Expr
    index_value zero assigned args e t t2 = fail out_of_fuel
    index_value (suc f) true args e t t2 = do
      val ← expression f 0
      index_call L (codes "oper []=") t e (args ++ val ∷ []) (codes " with these arguments.")
    index_value (suc f) false args e t t2 = do
      put_back t2
      index_call L (codes "oper []") t e args
          (codes " with these arguments: (" ++ (L.args_text args ++ codes ")"))

    -- parsePrimary, which every caller calls with an identifier or typeof to come
    pub primary : ℕ → Parse L.Context (Primary L)
    primary zero = fail out_of_fuel
    primary (suc f) = do t ← get_token L; start_primary f (t.type is TokenType.typeof_kw) t

    pub start_primary : ℕ → Bool → Token → Parse L.Context (Primary L)
    start_primary zero is_typeof t = fail out_of_fuel
    start_primary (suc f) true t = do
      T ← parse_typeof f
      e ← act (L.create_var_ref (L.type_def T))
      primary_loop f e (some T) end_token
    start_primary (suc f) false t = do def ← defined L t; name_primary f def t

    pub name_primary : ℕ → Option L.Def → Token → Parse L.Context (Primary L)
    name_primary zero def t = fail out_of_fuel
    name_primary (suc f) (some def) t = do
      act (L.check_accessible (some def) t.text)
      modify (L.note_ident t.loc)
      e ← act (L.name_ref def t)
      primary_loop f e (L.def_type def) t
    name_primary (suc f) none t = do
      this ← implicit_this L t.text
      found ← accessor_of L this t.text
      accessor_primary f found t

    pub accessor_primary : ℕ → Option L.Expr → Token → Parse L.Context (Primary L)
    accessor_primary zero e t = fail out_of_fuel
    accessor_primary (suc f) (some e) t = primary_loop f e none end_token
    accessor_primary (suc f) none t = pure (none, t)

    pub primary_loop : ℕ → L.Expr → Option L.TypeDef → Token → Parse L.Context (Primary L)
    primary_loop zero e T ident = fail out_of_fuel
    primary_loop (suc f) e T ident = do t ← get_token L; extend f (after_of t.type) e T ident t

    -- A round of the loop of parsePrimary.
    pub extend : ℕ → After → L.Expr → Option L.TypeDef → Token → Token → Parse L.Context (Primary L)
    extend zero kind e T ident t = fail out_of_fuel
    extend (suc f) take_member e T ident t = do
      ns ← scope_of L T
      put_back t
      got ← scoping L f ns none
      found ← or_fail got (fail null_pointer)
      e' ← act (L.name_ref found.0 found.1)
      primary_loop f e' (L.def_type found.0) end_token
    extend (suc f) take_attr e T ident t = do
      r ← post_dot f e T false
      primary_loop f r.0 r.1 end_token
    extend (suc f) take_index e T ident t = extend_bracket f (convert_type_ref L e) e T t
    extend (suc f) take_quest e T ident t = do
      t2 ← get_token L
      extend_quest f (t2.type is TokenType.dot) e T ident t t2
    extend (suc f) _ e T ident t = put_back t >> pure (some e, ident)

    pub extend_bracket :
        ℕ → Option L.TypeDef → L.Expr → Option L.TypeDef → Token → Parse L.Context (Primary L)
    extend_bracket zero generic e T t = fail out_of_fuel
    extend_bracket (suc f) (some generic) e T t = do
      T' ← specializer f t generic
      e' ← act (L.create_var_ref (L.type_def T'))
      primary_loop f e' (some T') end_token
    extend_bracket (suc f) none e T t = do e' ← index f e t; primary_loop f e' T end_token

    pub extend_quest :
        ℕ → Bool → L.Expr → Option L.TypeDef → Token → Token → Token → Parse L.Context (Primary L)
    extend_quest zero safe e T ident t t2 = fail out_of_fuel
    extend_quest (suc f) true e T ident t t2 = do
      r ← post_dot f e T true
      primary_loop f r.0 r.1 end_token
    extend_quest (suc f) false e T ident t t2 = do put_back t2; put_back t; pure (some e, ident)

    -- parsePostDot
    pub post_dot : ℕ → L.Expr → Option L.TypeDef → Bool → Parse L.Context (Selected L)
    post_dot zero e T safe = fail out_of_fuel
    post_dot (suc f) e T safe = do
      t ← get_token L
      r ← safe_receiver L safe e
      dotted f (dotted_of t.type) r.0 r.1 T t

    pub dotted :
        ℕ
        → Dotted
        → Option L.Expr
        → L.Expr
        → Option L.TypeDef
        → Token
        → Parse L.Context (Selected L)
    dotted zero kind guard e T t = fail out_of_fuel
    dotted (suc f) dot_name guard e T t = member L guard e T t t.text t.text
    dotted (suc f) dot_oper guard e T t = do
      names ← oper_spec L (type_spec f)
      member L guard e T t names.0 names.1
    dotted (suc f) dot_class guard e T t = do
      call ← emit_oper_class L e t
      e' ← wrap_in_null_check L guard call
      pure (e', T)
    dotted (suc f) no_dotted guard e T t = error t (codes "Identifier or 'oper' expected after '.'")

    -- parseMethodArgs
    pub method_args : ℕ → TokenType → Parse L.Context (List L.Expr)
    method_args zero stop = fail out_of_fuel
    method_args (suc f) stop = do t ← get_token L; args_from f (t.type is stop) stop t

    pub args_from : ℕ → Bool → TokenType → Token → Parse L.Context (List L.Expr)
    args_from zero ends stop t = fail out_of_fuel
    args_from (suc f) true stop t = pure []
    args_from (suc f) false stop t = do
      put_back t
      arg ← expression f 0
      t2 ← get_token L
      t3 ← behind_comma L t2
      rest ← args_from f (t3.type is stop) stop t3
      pure (arg ∷ rest)

    -- parseSpecializer
    pub specializer : ℕ → Token → L.TypeDef → Parse L.Context L.TypeDef
    specializer zero t T = fail out_of_fuel
    specializer (suc f) t T = do
      require (L.is_generic T)
          (error t (codes "You cannot specialize non-generic type " ++ L.type_name T))
      types ← sub_types f
      act (L.get_specialization T types)

    pub sub_types : ℕ → Parse L.Context (List L.TypeDef)
    sub_types zero = fail out_of_fuel
    sub_types (suc f) = do
      T ← type_spec f
      t ← get_token L
      more_types f (t.type is TokenType.rbracket) T t

    pub more_types : ℕ → Bool → L.TypeDef → Token → Parse L.Context (List L.TypeDef)
    more_types zero ends T t = fail out_of_fuel
    more_types (suc f) true T t = pure (T ∷ [])
    more_types (suc f) false T t = do
      require (t.type is TokenType.comma) (error t (codes "comma expected in specializer list."))
      rest ← sub_types f
      pure (T ∷ rest)

    -- parseTypeSpec
    pub type_spec : ℕ → Parse L.Context L.TypeDef
    type_spec zero = fail out_of_fuel
    type_spec (suc f) = do
      def ← any_def f
      T ← or_fail (L.def_type def) (context_error L (L.def_name def ++ codes " is not a type."))
      require (not (L.is_generic T)) (
          context_error L (
            codes "Generic type " ++ (L.type_name T ++ (codes " must be specialized to be used."))))
      pure T

    -- parseAnyDef
    pub any_def : ℕ → Parse L.Context L.Def
    any_def zero = fail out_of_fuel
    any_def (suc f) = do t ← get_token L; start_def f (t.type is TokenType.typeof_kw) t

    pub start_def : ℕ → Bool → Token → Parse L.Context L.Def
    start_def zero is_typeof t = fail out_of_fuel
    start_def (suc f) true t = do
      T ← parse_typeof f
      modify (L.note_ident t.loc)
      def_loop f (L.type_def T) (some T)
    start_def (suc f) false t = do
      require (t.type is TokenType.ident) (unexpected t (codes "name expected"))
      found ← act (L.look_up t.text)
      def ← or_fail found (error t (codes "Undefined name: " ++ t.text))
      act (L.check_accessible (some def) t.text)
      modify (L.note_ident t.loc)
      def_loop f def (L.def_type def)

    -- A round of its loop: a specializer, then a member.
    pub def_loop : ℕ → L.Def → Option L.TypeDef → Parse L.Context L.Def
    def_loop zero def T = fail out_of_fuel
    def_loop (suc f) def T = do
      t ← get_token L
      def_bracket f (t.type is TokenType.lbracket) def T t

    pub def_bracket : ℕ → Bool → L.Def → Option L.TypeDef → Token → Parse L.Context L.Def
    def_bracket zero special def T t = fail out_of_fuel
    def_bracket (suc f) true def T t = do
      generic ← generic_of L def T t
      T' ← specializer f t generic
      def_member f (L.type_def T') (some T')
    def_bracket (suc f) false def T t = put_back t >> def_member f def T

    pub def_member : ℕ → L.Def → Option L.TypeDef → Parse L.Context L.Def
    def_member zero def T = fail out_of_fuel
    def_member (suc f) def T = do
      t ← get_token L
      def_name f (t.type is TokenType.dot || t.type is TokenType.scoping) def T t

    pub def_name : ℕ → Bool → L.Def → Option L.TypeDef → Token → Parse L.Context L.Def
    def_name zero named def T t = fail out_of_fuel
    def_name (suc f) true def T t = do
      ident ← get_token L
      require (ident.type is TokenType.ident) (error ident (codes "Identifier expected."))
      scope ← or_fail T (fail null_pointer)
      found ← act (L.look_up_in (L.type_namespace scope) ident.text)
      def' ← or_fail found (error ident (not_a_member L ident (L.type_namespace scope)))
      act (L.check_accessible (type_as_def L (L.def_type def')) ident.text)
      def_loop f def' (L.def_type def')
    def_name (suc f) false def T t = put_back t >> pure def

    -- parseTypeof, in an inert subcontext
    pub parse_typeof : ℕ → Parse L.Context L.TypeDef
    parse_typeof zero = fail out_of_fuel
    parse_typeof (suc f) = do
      t ← get_token L
      require (t.type is TokenType.lparen)
          (unexpected t (codes "Expected parenthesized expression after 'typeof' keyword."))
      outer ← gets (λ s. s)
      modify L.enter_inert
      e ← expression f 0
      t2 ← get_token L
      require (t2.type is TokenType.rparen)
          (unexpected t2 (codes "Expected closing paren after 'typeof' expression."))
      modify (L.leave_inert outer)
      pure (L.type_of e)

    -- parseConstSequence
    pub const_sequence : ℕ → L.TypeDef → Parse L.Context L.Expr
    const_sequence zero T = fail out_of_fuel
    const_sequence (suc f) T = do
      t ← get_token L
      es ← elements f (t.type is TokenType.rbracket) t
      modify L.to_ident
      act (L.const_sequence T es)

    pub elements : ℕ → Bool → Token → Parse L.Context (List L.Expr)
    elements zero ends t = fail out_of_fuel
    elements (suc f) true t = pure []
    elements (suc f) false t = do
      put_back t
      e ← expression f 0
      t2 ← get_token L
      t3 ← behind_element L t2
      rest ← elements f (t3.type is TokenType.rbracket) t3
      pure (e ∷ rest)

    -- parseIString
    pub parse_istring : ℕ → L.Expr → Parse L.Context L.Expr
    parse_istring zero e = fail out_of_fuel
    parse_istring (suc f) e = do
      reg ← act (L.get_register (L.type_of e))
      opened ← open_format L e reg
      parts ← format_parts f opened.0
      close_format L (L.set_register reg e) (opened.1 ++ parts) opened.0

    pub format_parts : ℕ → L.Expr → Parse L.Context (List L.Expr)
    format_parts zero reg = fail out_of_fuel
    format_parts (suc f) reg = do
      t ← get_token L
      format_part f (part_of t.type (is_empty t.text)) reg t

    -- The loop goes round at an empty string, and the token of a message is the last one read.
    pub format_part : ℕ → Part → L.Expr → Token → Parse L.Context (List L.Expr)
    format_part zero kind reg t = fail out_of_fuel
    format_part (suc f) part_end reg t = pure []
    format_part (suc f) part_empty reg t = format_parts f reg
    format_part (suc f) part_text reg t = do
      arg ← act (L.str_const t.text)
      call ← format_call L t arg reg
      rest ← format_parts f reg
      pure (call ∷ rest)
    format_part (suc f) part_name reg t = do
      arg ← act (L.ident_ref t)
      call ← format_call L t arg reg
      rest ← format_parts f reg
      pure (call ∷ rest)
    format_part (suc f) part_paren reg t = do
      arg ← expression f 0
      t2 ← get_token L
      require (t2.type is TokenType.rparen) (unexpected t2 (codes "expected a right paren"))
      call ← format_call L t2 arg reg
      rest ← format_parts f reg
      pure (call ∷ rest)
    format_part (suc f) no_part reg t = unexpected t (
        codes "expected an identifer or a parenthesized expression "
        ++ codes "after the $ in an interpolated string")
