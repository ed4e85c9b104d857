-- ===== src/Grammar/Operators.antt =====
-- parser/Parser.cc: the parts of the expressions that read no token: lookUpBinOp, the calls of
-- operators, makeAssign, emitOperClass, wrapInNullCheck and parseConstInt.
use crack.Consts.Signed.{pos, negsuc, to_signed, word_mod, half}
use crack.Grammar.{Parse, pure, fail, act, error, or_fail, ◌>>=◌}
use crack.Grammar.Interface.{Language}
use crack.Grammar.Kinds.{find_precedence}
use crack.Prelude.{
  ℕ, ◌+◌, ◌-◌, ◌*◌, ◌%◌, ltb, leb, ◌==◌, Bool, true, false, ◌&&◌, ◌||◌, if◌then◌else◌, Option, some,
  none, List, [], ◌∷◌, ◌++◌, Bytes, codes, length, parse_error, assertion, uncaught,
}
use crack.Token.{Token, is_aug_assign}

-- `op.substr(0, op.size() - 1)`
unfoldable pub base_op : Bytes → Bytes
base_op [] = []
base_op (c ∷ []) = []
base_op (c ∷ d ∷ cs) = c ∷ base_op (d ∷ cs)

-- `n << 8 | c` with a signed char: a byte from 128 on has its sign in all the higher bits.
unfoldable pub or_byte : ℕ → ℕ → ℕ
or_byte n c = if ltb c 128 then (n * 256 + c) % word_mod else word_mod - 256 + c

unfoldable pub or_bytes : ℕ → Bytes → ℕ
unfolding or_byte
or_bytes n [] = n
or_bytes n (c ∷ cs) = or_bytes (or_byte n c) cs

-- `val[0] == m && val[1] == '/'`
unfoldable pub marked : ℕ → Bytes → Bool
marked m (a ∷ b ∷ cs) = a == m && b == b'/'
marked m _ = false

abbrev pub behind_mark : Bytes → Bytes
behind_mark (a ∷ b ∷ cs) = cs
behind_mark _ = []

module _ (L : Language) where
  -- Context::error
  abbrev pub context_error : {A : Type 0} → Bytes → Parse L.Context A
  context_error msg (ts, s) = parse_error (L.location s) msg

  -- getPrecedence
  unfoldable pub get_precedence : Bytes → Parse L.Context ℕ
  get_precedence op = or_fail (find_precedence op) (fail assertion)

  -- An int constant weighs 1, a float constant 2 and any other expression 3.
  unfoldable pub weight : L.Expr → ℕ
  weight e = (if L.is_int_const e then 0 else 2) + (if L.is_float_const e then 0 else 1)

  abbrev pub look_up_if : Bool → Bytes → L.Expr → L.Expr → Parse L.Context (Option L.FuncDef)
  look_up_if true name arg of = act (L.look_up_func name (arg ∷ []) (some (L.type_of of)))
  look_up_if false name arg of = pure none

  abbrev pub Found : Type 0
  Found = Option L.FuncDef × List L.Expr

  abbrev pub found_or :
      Option L.FuncDef → List L.Expr → Parse L.Context Found → Parse L.Context Found
  found_or (some f) args other = pure (some f, args)
  found_or none args other = other

  unfoldable pub look_up_bin_op : Bytes → L.Expr → L.Expr → Parse L.Context Found
  unfolding weight
  look_up_bin_op op a b = do
    left ← look_up_if (leb (weight b) (weight a)) (codes "oper " ++ op) b a
    found_or left (b ∷ []) do
      right ← look_up_if (leb (weight a) (weight b)) (codes "oper r" ++ op) a b
      found_or right (a ∷ []) do
        func ← act (L.look_up_func (codes "oper " ++ op) (a ∷ b ∷ []) none)
        pure (func, a ∷ b ∷ [])

  -- The receiver of the call of a binary operator.
  abbrev bin_receiver : L.FuncDef → L.Expr → L.Expr → Option L.Expr
  bin_receiver f a b = if L.is_method f then some (if L.is_reverse f then b else a) else none

  abbrev undefined_op : Token → L.Expr → L.Expr → Bytes
  undefined_op t a b =
      codes "Operator "
      ++ (L.type_name (L.type_of a)
          ++ (codes " "
              ++ (t.text ++ (codes " " ++ (L.type_name (L.type_of b) ++ codes " undefined.")))))

  -- The fold of parseBinOp, which keeps the call where DivZeroError is thrown.
  abbrev fold_or_keep : L.Expr → L.Expr
  fold_or_keep e = elim (L.fold e) [ some e' ↦ e' | none ↦ e ]

  -- parseBinOp once the right side is read
  unfoldable pub bin_call : Token → L.Expr → L.Expr → Parse L.Context L.Expr
  unfolding look_up_bin_op
  bin_call t a b = do
    found ← look_up_bin_op t.text a b
    f ← or_fail found.0 (error t (undefined_op t a b))
    call ← act (L.create_call f found.1 (bin_receiver f a b))
    pure (fold_or_keep call)

  abbrev pub look_up_for :
      Option L.FuncDef → Bytes → L.Expr → Parse L.Context (Option L.FuncDef × List L.Expr)
  look_up_for (some f) symbol e = pure (some f, [])
  look_up_for none symbol e = do f ← act (L.look_up_func symbol (e ∷ []) none); pure (f, e ∷ [])

  -- The call of an operator of one operand: a method of its type, or else a function.
  unfoldable pub op_call : Bytes → Bytes → Token → L.Expr → Parse L.Context L.Expr
  op_call symbol shown t e = do
    method ← act (L.look_up_func symbol [] (some (L.type_of e)))
    found ← look_up_for method symbol e
    f ←
        or_fail found.0
          (error t (shown ++ (codes " is not defined for type " ++ L.type_name (L.type_of e))))
    act (L.create_call f found.1 (if L.is_method f then some e else none))

  unfoldable pub fold_call : L.Expr → Parse L.Context L.Expr
  fold_call e = or_fail (L.fold e) (fail uncaught)

  -- `a[i]` and `a[i] = v` once the arguments are read
  unfoldable pub index_call : Bytes → Token → L.Expr → List L.Expr → Bytes → Parse L.Context L.Expr
  index_call name t e args msg = do
    func ← act (L.look_up_func name args (some (L.type_of e)))
    f ← or_fail func (
        error t (
          codes "'"
          ++ (name ++ (codes "' not defined for " ++ (L.type_name (L.type_of e) ++ msg)))))
    act (L.create_call f args (some e))

  abbrev pub bin_op_call :
      Option L.FuncDef
      → List L.Expr
      → L.Expr
      → L.Expr
      → Parse L.Context L.Expr
      → Parse L.Context L.Expr
  bin_op_call (some f) args a b other = act (L.create_call f args (bin_receiver f a b))
  bin_op_call none args a b other = other

  abbrev not_augmented : Token → Bytes → L.Expr → L.Expr → Bytes
  not_augmented t op a b =
      codes "Neither "
      ++ (op
          ++ (codes "=  nor "
              ++ (op
                  ++ (codes " is defined for types "
                      ++ (L.type_name (L.type_of a)
                          ++ (codes " and " ++ L.type_name (L.type_of b)))))))

  -- The second half of makeAssign's branch for an augmented assignment.
  abbrev pub assign_base : Token → L.Expr → L.Expr → Parse L.Context L.Expr
  assign_base t a b = do
    found ← look_up_bin_op (base_op t.text) a b
    val ← bin_op_call found.0 found.1 a b (error t (not_augmented t (base_op t.text) a b))
    act (L.assign a t val)

  unfoldable pub make_assign : L.Expr → Token → L.Expr → Parse L.Context L.Expr
  unfolding look_up_bin_op base_op is_aug_assign
  make_assign a t b =
      let augmented = do
        found ← look_up_bin_op t.text a b
        bin_op_call found.0 found.1 a b (assign_base t a b)
      in if is_aug_assign t.type then augmented else act (L.assign a t b)

  unfoldable pub emit_oper_class : L.Expr → Token → Parse L.Context L.Expr
  emit_oper_class e t = do
    func ← act (L.look_up_no_args (codes "oper class") (L.type_of e))
    f ←
        or_fail func
          (error t (codes "class operator not defined for " ++ L.type_name (L.type_of e)))
    act (L.create_call f [] (some e))

  -- `primary` is there for the safe navigation operator.
  unfoldable pub wrap_in_null_check : Option L.Expr → L.Expr → Parse L.Context L.Expr
  wrap_in_null_check none e = pure e
  wrap_in_null_check (some primary) e = do
    let args = primary ∷ L.null_const (some (L.type_of primary)) ∷ []
    func ← act (L.look_up_func (codes "oper is") args none)
    f ←
        or_fail func
          (context_error (codes "Expression can not be used for safe navigation operator '.?'"))
    cond ← act (L.create_call f args none)
    pure (L.safe_nav cond (L.null_const (some (L.type_of e))) e)

  abbrev pub strtoull_const : Bytes → ℕ → Parse L.Context L.Expr
  strtoull_const val base =
      if ltb (L.strtoull val base) half
      then act (L.int_const (L.strtoll val base))
      else act (L.uint_const (L.strtoull val base))

  abbrev bad_byte : Bytes
  bad_byte = codes "Byte constants from strings must be exactly one byte long."

  abbrev pub bad_word : Bytes
  bad_word = codes "Integer constants from strings must be between one and 8 bytes long"

  abbrev pub byte_literal : Bytes → Parse L.Context L.Expr
  byte_literal (c ∷ []) = act (L.byte_const (if ltb c 128 then pos c else negsuc (255 - c)))
  byte_literal _ = context_error bad_byte

  abbrev pub word_literal : Bytes → Parse L.Context L.Expr
  word_literal cs =
      if length cs == 0 || ltb 8 (length cs)
      then context_error bad_word
      else act (L.int_const (to_signed (or_bytes 0 cs)))

  unfoldable pub const_int : Bytes → ℕ → Parse L.Context L.Expr
  unfolding or_bytes marked
  const_int val base =
      if marked b'b' val
      then byte_literal (behind_mark val)
      else if marked b'i' val
      then word_literal (behind_mark val)
      else strtoull_const val base
