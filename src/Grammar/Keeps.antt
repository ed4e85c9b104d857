-- ===== src/Grammar/Keeps.antt =====
-- The steps of the parser that call no parsing function, and the tokens that they leave.
use crack.Consts.Signed.{to_signed, half}
use crack.Grammar.{Parse, fail, act, or_fail, ◌>>=◌}
use crack.Grammar.Interface.{Language}
use crack.Grammar.Operators.{
  look_up_if, found_or, look_up_bin_op, bin_call, look_up_for, op_call, fold_call, index_call,
  bin_op_call, assign_base, make_assign, emit_oper_class, wrap_in_null_check, byte_literal,
  const_int, weight, Found, base_op, or_bytes, marked, behind_mark, context_error, bad_word,
}
use crack.Grammar.Runs.{
  Ends, left, stopped, faulted, Ends-act, Ends-bind, then_act, then_or_fail, Keeps,
}
use crack.Prelude.{
  ℕ, Bool, true, false, Option, some, none, List, [], ◌∷◌, Bytes, leb, ltb, ◌==◌, ◌||◌, length,
  if◌then◌else◌, uncaught,
}
use crack.Token.{Token, is_aug_assign}

module _ (L : Language) where
  look_up_if-Keeps : (b : Bool) (name : Bytes) (x y : L.Expr) → Keeps (look_up_if L b name x y)
  look_up_if-Keeps true name x y n ts s h = Ends-act _ _ h
  look_up_if-Keeps false name x y n ts s h = left h

  found_or-Keeps :
      (o : Option L.FuncDef) (args : List L.Expr) (other : Parse L.Context (Found L))
      → Keeps other
      → Keeps (found_or L o args other)
  found_or-Keeps (some f) args other k n ts s h = left h
  found_or-Keeps none args other k n ts s h = k n ts s h

  look_up_bin_op-Keeps : (op : Bytes) (a b : L.Expr) → Keeps (look_up_bin_op L op a b)
  unfolding look_up_bin_op
  look_up_bin_op-Keeps op a b n ts s h =
      Ends-bind _ (look_up_if-Keeps (leb (weight L b) (weight L a)) _ b a n ts s h) λ l ts₁ s₁ h₁.
        found_or-Keeps l _ _
          (λ m ts₂ s₂ h₂.
            Ends-bind _ (look_up_if-Keeps (leb (weight L a) (weight L b)) _ a b m ts₂ s₂ h₂)
              λ r ts₃ s₃ h₃.
                found_or-Keeps r _ _ (λ k ts₄ s₄ h₄. then_act _ _ _ λ _ _. left h₄) m ts₃ s₃ h₃)
          n ts₁ s₁ h₁

  pub bin_call-Keeps : (t : Token) (a b : L.Expr) → Keeps (bin_call L t a b)
  unfolding bin_call
  bin_call-Keeps t a b n ts s h =
      Ends-bind _ (look_up_bin_op-Keeps t.text a b n ts s h)
        λ found ts₁ s₁ h₁. then_or_fail _ found.0 _ _ stopped λ f. then_act _ _ _ λ _ _. left h₁

  look_up_for-Keeps :
      (o : Option L.FuncDef) (symbol : Bytes) (e : L.Expr) → Keeps (look_up_for L o symbol e)
  look_up_for-Keeps (some f) symbol e n ts s h = left h
  look_up_for-Keeps none symbol e n ts s h = then_act _ _ _ λ _ _. left h

  pub op_call-Keeps :
      (symbol shown : Bytes) (t : Token) (e : L.Expr) → Keeps (op_call L symbol shown t e)
  unfolding op_call
  op_call-Keeps symbol shown t e n ts s h = then_act _ _ _ λ method s₁.
      Ends-bind _ (look_up_for-Keeps method symbol e n ts s₁ h)
        λ found ts₂ s₂ h₂. then_or_fail _ found.0 _ _ stopped λ f. Ends-act _ _ h₂

  pub fold_call-Keeps : (e : L.Expr) → Keeps (fold_call L e)
  unfolding fold_call or_fail
  fold_call-Keeps e n ts s h = folded (L.fold e)
    where
      folded : (o : Option L.Expr) → Ends n (or_fail o (fail uncaught) (ts, s))
      folded (some e') = left h
      folded none = faulted (cc)

  pub index_call-Keeps :
      (name : Bytes) (t : Token) (e : L.Expr) (args : List L.Expr) (msg : Bytes)
      → Keeps (index_call L name t e args msg)
  unfolding index_call
  index_call-Keeps name t e args msg n ts s h =
      then_act _ _ _ λ func s₁. then_or_fail _ func _ _ stopped λ f. Ends-act _ _ h

  bin_op_call-Keeps :
      (o : Option L.FuncDef) (args : List L.Expr) (a b : L.Expr) (other : Parse L.Context L.Expr)
      → Keeps other
      → Keeps (bin_op_call L o args a b other)
  bin_op_call-Keeps (some f) args a b other k n ts s h = Ends-act _ _ h
  bin_op_call-Keeps none args a b other k n ts s h = k n ts s h

  assign_base-Keeps : (t : Token) (a b : L.Expr) → Keeps (assign_base L t a b)
  assign_base-Keeps t a b n ts s h =
      Ends-bind _ (look_up_bin_op-Keeps (base_op t.text) a b n ts s h) λ found ts₁ s₁ h₁.
        Ends-bind _ (bin_op_call-Keeps found.0 found.1 a b _ (λ _ _ _ _. stopped) n ts₁ s₁ h₁)
          λ val ts₂ s₂ h₂. Ends-act _ _ h₂

  pub make_assign-Keeps : (a : L.Expr) (t : Token) (b : L.Expr) → Keeps (make_assign L a t b)
  unfolding make_assign
  make_assign-Keeps a t b n ts s h = kept (is_aug_assign t.type)
    where
      augmented : Parse L.Context L.Expr
      augmented = look_up_bin_op L t.text a b >>= λ found.
          bin_op_call L found.0 found.1 a b (assign_base L t a b)

      kept : (c : Bool) → Ends n ((if c then augmented else act (L.assign a t b)) (ts, s))
      kept true = Ends-bind _ (look_up_bin_op-Keeps t.text a b n ts s h) λ found ts₁ s₁ h₁.
          bin_op_call-Keeps found.0 found.1 a b _ (assign_base-Keeps t a b) n ts₁ s₁ h₁
      kept false = Ends-act _ _ h

  pub emit_oper_class-Keeps : (e : L.Expr) (t : Token) → Keeps (emit_oper_class L e t)
  unfolding emit_oper_class
  emit_oper_class-Keeps e t n ts s h =
      then_act _ _ _ λ func s₁. then_or_fail _ func _ _ stopped λ f. Ends-act _ _ h

  pub wrap_in_null_check-Keeps :
      (guard : Option L.Expr) (e : L.Expr) → Keeps (wrap_in_null_check L guard e)
  unfolding wrap_in_null_check
  wrap_in_null_check-Keeps none e n ts s h = left h
  wrap_in_null_check-Keeps (some primary) e n ts s h =
      then_act _ _ _ λ func s₁. then_or_fail _ func _ _ stopped λ f. then_act _ _ _ λ _ _. left h

  byte_literal-Keeps : (cs : Bytes) → Keeps (byte_literal L cs)
  byte_literal-Keeps [] n ts s h = stopped
  byte_literal-Keeps (c ∷ []) n ts s h = Ends-act _ _ h
  byte_literal-Keeps (c ∷ d ∷ cs) n ts s h = stopped

  pub const_int-Keeps : (val : Bytes) (base : ℕ) → Keeps (const_int L val base)
  unfolding const_int
  const_int-Keeps val base n ts s h =
      kept (marked b'b' val) (marked b'i' val)
        (length (behind_mark val) == 0 || ltb 8 (length (behind_mark val)))
        (ltb (L.strtoull val base) half)
    where
      kept :
          (byte word bad small : Bool)
          → Ends n (
              (if byte
                  then byte_literal L (behind_mark val)
                  else if word
                  then (if bad
                      then context_error L (bad_word L)
                      else act (L.int_const (to_signed (or_bytes 0 (behind_mark val)))))
                  else if small
                  then act (L.int_const (L.strtoll val base))
                  else act (L.uint_const (L.strtoull val base)))
                (ts, s))
      kept true word bad small = byte_literal-Keeps (behind_mark val) n ts s h
      kept false true true small = stopped
      kept false true false small = Ends-act _ _ h
      kept false false bad true = Ends-act _ _ h
      kept false false bad false = Ends-act _ _ h
