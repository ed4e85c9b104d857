-- ===== src/Grammar/Ends/Sugar.antt =====
-- parseTernary, the two meanings of `!` and the indexing operators: a call with one unit of fuel more.
use crack.Grammar.Consumed.{taken, begun, joined}
use crack.Grammar.Descent.{
  expression, follow_ternary, follow_bang, follow_not_is, index, index_value,
}
use crack.Grammar.Interface.{Language}
use crack.Grammar.Keeps.{bin_call-Keeps, op_call-Keeps, fold_call-Keeps, index_call-Keeps}
use crack.Grammar.Parts.{get_precedence-Keeps}
use crack.Grammar.Rounds.{convert_type_ref}
use crack.Grammar.Runs.{
  size, weight, Ends, left, stopped, Ends-bind, then_act, then_or_fail, then_require, then_token,
}
use crack.Prelude.{ℕ, suc, leb, ◌+◌, ◌*◌, ◌<◌, Bool, true, false, List, ◌∷◌, arith}
use crack.Token.{Token, TokenType, type_code, ◌is◌}
use crack.Grammar.Ends.Given.{Below}

module _ (L : Language) (f : ℕ) (below : Below L f) where
  pub follow_ternary-Ends :
      (n : ℕ) (ends : Bool) (p : ℕ) (ident : Token) (v : L.Expr) (t : Token) (ts : List Token)
      (s : L.Context)
      → 30 * (size ts) + 4 < suc f
      → weight t.type + size ts < n
      → Ends n (follow_ternary L (suc f) ends p ident v t (ts, s))
  unfolding expression size weight taken begun joined type_code
  follow_ternary-Ends n true p ident v t ts s h k = left k
  follow_ternary-Ends n false p ident v t ts s h k =
      Ends-bind _ (below.expression-Ends (size ts) 0 ts s (omega arith) (omega arith))
        λ value ts₁ s₁ h₁. then_token L _ ts₁ s₁ λ t₂ ts₂ s₂ h₂. then_require _ _ _ _ stopped λ _.
          Ends-bind _ (below.expression-Ends (size ts₂) 0 ts₂ s₂ (omega arith) (omega arith))
            λ other ts₃ s₃ h₃.
              then_act _ _ _
                λ v' s₄. below.secondary-Ends n p false ident v' ts₃ s₄ (omega arith) (omega arith)

  pub follow_bang-Ends :
      (n : ℕ) (sugar : Bool) (p : ℕ) (ident : Token) (v : L.Expr) (t t₂ : Token) (ts : List Token)
      (s : L.Context)
      → 30 * (size ts) + 12 < suc f
      → weight t.type + size ts < n
      → Ends n (follow_bang L (suc f) sugar p ident v t t₂ (ts, s))
  unfolding expression size weight taken begun joined type_code
  follow_bang-Ends n true p ident v t t₂ ts s h k =
      Ends-bind _ (get_precedence-Keeps L _ (suc (size ts)) ts s (omega arith)) λ level ts₁ s₁ h₁.
        below.follow_not_is-Ends n (leb level p) level p ident v t t₂ ts₁ s₁ (omega arith)
          (omega arith)
  follow_bang-Ends n false p ident v t t₂ ts s h k =
      then_or_fail _ (convert_type_ref L v) _ _ stopped λ T. then_require _ _ _ _ stopped λ _.
        Ends-bind _ (below.const_sequence-Ends (suc (size ts)) T ts s (omega arith) (omega arith))
          λ v' ts₁ s₁ h₁. below.secondary-Ends n p false ident v' ts₁ s₁ (omega arith) (omega arith)

  pub follow_not_is-Ends :
      (n : ℕ) (ends : Bool) (level p : ℕ) (ident : Token) (v : L.Expr) (t t₂ : Token)
      (ts : List Token) (s : L.Context)
      → 30 * (size ts) + 4 < suc f
      → weight t.type + size ts < n
      → Ends n (follow_not_is L (suc f) ends level p ident v t t₂ (ts, s))
  unfolding expression size weight taken begun joined type_code
  follow_not_is-Ends n true level p ident v t t₂ ts s h k = left k
  follow_not_is-Ends n false level p ident v t t₂ ts s h k =
      Ends-bind _ (below.expression-Ends (size ts) level ts s (omega arith) (omega arith))
        λ rhs ts₁ s₁ h₁.
          Ends-bind _ (bin_call-Keeps L t₂ v rhs (size ts) ts₁ s₁ h₁) λ same ts₂ s₂ h₂.
            Ends-bind _ (op_call-Keeps L _ _ t same (size ts) ts₂ s₂ h₂) λ call ts₃ s₃ h₃.
              Ends-bind _ (fold_call-Keeps L call (size ts) ts₃ s₃ h₃) λ v' ts₄ s₄ h₄.
                below.secondary-Ends n p false ident v' ts₄ s₄ (omega arith) (omega arith)

  pub index-Ends :
      (n : ℕ) (v : L.Expr) (t : Token) (ts : List Token) (s : L.Context)
      → 30 * (size ts) + 5 < suc f
      → size ts < n
      → Ends n (index L (suc f) v t (ts, s))
  unfolding expression size weight taken begun joined type_code
  index-Ends n v t ts s h k =
      Ends-bind _
        (below.method_args-Ends (suc (size ts)) TokenType.rbracket ts s (omega arith) (omega arith))
        λ args ts₁ s₁ h₁. then_token L _ ts₁ s₁ λ t₂ ts₂ s₂ h₂.
          below.index_value-Ends n (t₂.type is TokenType.assign) args v t t₂ ts₂ s₂ (omega arith)
            (omega arith)

  pub index_value-Ends :
      (n : ℕ) (assigned : Bool) (args : List L.Expr) (v : L.Expr) (t t₂ : Token) (ts : List Token)
      (s : L.Context)
      → 30 * (size ts) + 2 < suc f
      → weight t₂.type + size ts < n
      → Ends n (index_value L (suc f) assigned args v t t₂ (ts, s))
  unfolding expression size weight taken begun joined type_code
  index_value-Ends n true args v t t₂ ts s h k =
      Ends-bind _ (below.expression-Ends (size ts) 0 ts s (omega arith) (omega arith))
        λ val ts₁ s₁ h₁. index_call-Keeps L _ t v _ _ n ts₁ s₁ (omega arith)
  index_value-Ends n false args v t t₂ ts s h k = index_call-Keeps L _ t v args _ n (t₂ ∷ ts) s k
