-- ===== src/Grammar/Ends/Expression.antt =====
-- parseExpression and parseDefine: a call with one unit of fuel more.
use crack.Grammar.{end_token}
use crack.Grammar.Consumed.{taken, begun, opens, begin-name, begin-text, joined}
use crack.Grammar.Descent.{expression, begin, behind_primary, parse_define}
use crack.Grammar.Interface.{Language}
use crack.Grammar.Keeps.{op_call-Keeps, fold_call-Keeps, const_int-Keeps}
use crack.Grammar.Kinds.{Begin, begin_of}
use crack.Grammar.Kinds.{
  start_null, start_paren, start_typeof, start_name, start_text, start_istring, start_int,
  start_float, start_plus, start_prefix, start_lambda, start_class, start_curly, no_start,
}
use crack.Grammar.Parts.{then_defined, get_precedence-Keeps, plus_const-Keeps}
use crack.Grammar.Reading.{first_string-Ends}
use crack.Grammar.Runs.{
  size, weight, Ends, stopped, Ends-act, Ends-bind, then_act, then_require, then_token,
}
use crack.Prelude.{ℕ, suc, ◌+◌, ◌*◌, ◌<◌, ◌≤◌, true, Option, some, none, List, [], arith, ◌≡◌, refl}
use crack.Token.{Token, type_code}
use crack.Grammar.Ends.Given.{Below}

module _ (L : Language) (f : ℕ) (below : Below L f) where
  pub expression-Ends :
      (n : ℕ) (p : ℕ) (ts : List Token) (s : L.Context)
      → 30 * (size ts) + 1 < suc f
      → size ts ≤ n
      → Ends n (expression L (suc f) p (ts, s))
  unfolding expression size weight taken begun joined type_code
  expression-Ends n p ts s h k = then_token L _ ts s λ t ts₁ s₁ h₁.
      below.begin-Ends n (begin_of t.type) p t ts₁ s₁ refl (omega arith) (omega arith)

  pub begin-Ends :
      (n : ℕ) (kind : Begin) (p : ℕ) (t : Token) (ts : List Token) (s : L.Context)
      → begin_of t.type ≡ kind
      → 30 * (weight t.type + size ts) + 0 < suc f
      → weight t.type + size ts ≤ n
      → Ends n (begin L (suc f) kind p t (ts, s))
  unfolding expression size weight taken begun joined type_code
  begin-Ends n start_null p t ts s e h k =
      let w = opens t.type (start_null) e in
      below.secondary-Ends n p true end_token _ ts s (omega arith) (omega arith)
  begin-Ends n start_paren p t ts s e h k =
      let w = opens t.type (start_paren) e in
      Ends-bind _ (below.expression-Ends (size ts) 0 ts s (omega arith) (omega arith))
        λ v ts₁ s₁ h₁. then_token L _ ts₁ s₁ λ t₂ ts₂ s₂ h₂.
          then_require _ _ _ _ stopped
            λ _. below.secondary-Ends n p true end_token v ts₂ s₂ (omega arith) (omega arith)
  begin-Ends n start_typeof p t ts s e h k =
      let w = opens t.type (start_typeof) e in
      Ends-bind _ (below.parse_typeof-Ends (suc (size ts)) ts s (omega arith) (omega arith))
        λ T ts₁ s₁ h₁.
          then_act _ _ _
            λ v s₂. below.secondary-Ends n p true end_token v ts₁ s₂ (omega arith) (omega arith)
  begin-Ends n start_name p t ts s e h k =
      let w = opens t.type (start_name) e in
      Ends-bind _
        (below.primary-Ends (suc (size ts)) t ts _ (begin-name t.type e) (omega arith)
          (omega arith))
        λ r ts₁ s₁ h₁. below.behind_primary-Ends n p r.0 r.1 ts₁ s₁ (omega arith) (omega arith)
  begin-Ends n start_text p t ts s e h k =
      let w = opens t.type (start_text) e in
      Ends-bind _
        (first_string-Ends L f (suc (size ts)) [] t ts s (begin-text t.type e) (omega arith)
          (omega arith))
        λ text ts₁ s₁ h₁.
          then_act _ _ _
            λ v s₂. below.secondary-Ends n p true end_token v ts₁ s₂ (omega arith) (omega arith)
  begin-Ends n start_istring p t ts s e h k = let w = opens t.type (start_istring) e in stopped
  begin-Ends n (start_int base) p t ts s e h k =
      let w = opens t.type (start_int base) e in
      Ends-bind _ (const_int-Keeps L t.text base (suc (size ts)) ts s (omega arith))
        λ v ts₁ s₁ h₁. below.secondary-Ends n p true end_token v ts₁ s₁ (omega arith) (omega arith)
  begin-Ends n start_float p t ts s e h k =
      let w = opens t.type (start_float) e in
      then_act _ _ _
        λ v s₁. below.secondary-Ends n p true end_token v ts s₁ (omega arith) (omega arith)
  begin-Ends n start_plus p t ts s e h k =
      let w = opens t.type (start_plus) e in
      then_token L _ ts s λ t₂ ts₂ s₂ h₂.
        Ends-bind _ (plus_const-Keeps L (begin_of t₂.type) t₂ (suc (size ts₂)) ts₂ s₂ (omega arith))
          λ v ts₃ s₃ h₃.
            below.secondary-Ends n p true end_token v ts₃ s₃ (omega arith) (omega arith)
  begin-Ends n start_prefix p t ts s e h k =
      let w = opens t.type (start_prefix) e in
      Ends-bind _ (get_precedence-Keeps L _ (suc (size ts)) ts s (omega arith)) λ level ts₁ s₁ h₁.
        Ends-bind _ (below.expression-Ends (size ts₁) level ts₁ s₁ (omega arith) (omega arith))
          λ v ts₂ s₂ h₂.
            Ends-bind _ (op_call-Keeps L _ _ t v (size ts₁) ts₂ s₂ h₂) λ call ts₃ s₃ h₃.
              Ends-bind _ (fold_call-Keeps L call (size ts₁) ts₃ s₃ h₃) λ v' ts₄ s₄ h₄.
                below.secondary-Ends n p true end_token v' ts₄ s₄ (omega arith) (omega arith)
  begin-Ends n start_lambda p t ts s e h k =
      let w = opens t.type (start_lambda) e in
      Ends-bind _ (below.type_spec-Ends (size ts) ts s (omega arith) (omega arith)) λ T ts₁ s₁ h₁.
        then_token L _ ts₁ s₁ λ t₂ ts₂ s₂ h₂. then_require _ _ _ _ stopped λ _.
          then_defined L ts₂ _ _ λ def ts₃ s₃ h₃.
            then_act _ _ _
              λ v s₄. below.secondary-Ends n p true end_token v ts₃ s₄ (omega arith) (omega arith)
  begin-Ends n start_class p t ts s e h k =
      let w = opens t.type (start_class) e in
      then_defined L ts _ _ λ T ts₁ s₁ h₁. Ends-act _ _ (omega arith)
  begin-Ends n start_curly p t ts s e h k = let w = opens t.type (start_curly) e in stopped
  begin-Ends n no_start p t ts s e h k = let w = opens t.type (no_start) e in stopped

  pub behind_primary-Ends :
      (n : ℕ) (p : ℕ) (o : Option L.Expr) (ident : Token) (ts : List Token) (s : L.Context)
      → 30 * (size ts) + 3 < suc f
      → size ts < n
      → Ends n (behind_primary L (suc f) p o ident (ts, s))
  unfolding expression size weight taken begun joined type_code
  behind_primary-Ends n p (some v) ident ts s h k =
      below.secondary-Ends n p true ident v ts s (omega arith) (omega arith)
  behind_primary-Ends n p none ident ts s h k = then_token L _ ts s λ t ts₁ s₁ h₁.
      then_require _ _ _ _ stopped
        λ _. below.parse_define-Ends n ident ts₁ s₁ (omega arith) (omega arith)

  pub parse_define-Ends :
      (n : ℕ) (ident : Token) (ts : List Token) (s : L.Context)
      → 30 * (size ts) + 2 < suc f
      → size ts < n
      → Ends n (parse_define L (suc f) ident (ts, s))
  unfolding expression size weight taken begun joined type_code
  parse_define-Ends n ident ts s h k =
      Ends-bind _ (below.expression-Ends (size ts) 0 ts s (omega arith) (omega arith))
        λ val ts₁ s₁ h₁. then_act _ _ _ λ _ s₂.
          then_require _ _ _ _ stopped λ _. then_act _ _ _ λ var s₃. Ends-act _ _ (omega arith)
