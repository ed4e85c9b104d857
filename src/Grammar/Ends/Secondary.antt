-- ===== src/Grammar/Ends/Secondary.antt =====
-- parseSecondary: a call with one unit of fuel more.
use crack.Grammar.Consumed.{taken, begun, goes_on, after-scoping, joined, scoping-again}
use crack.Grammar.Descent.{
  expression, secondary, follow, follow_bracket, follow_type, follow_bin, follow_quest,
}
use crack.Grammar.Interface.{Language}
use crack.Grammar.Keeps.{bin_call-Keeps, op_call-Keeps, make_assign-Keeps}
use crack.Grammar.Kinds.{After, after_of}
use crack.Grammar.Kinds.{
  take_attr, take_member, take_index, take_call, take_bump, take_bin, take_format, take_quest,
  take_bang, take_assign, take_define, leave,
}
use crack.Grammar.Parts.{then_raw, get_precedence-Keeps, check_again-Keeps}
use crack.Grammar.Reading.{usable-Ends}
use crack.Grammar.Rounds.{convert_type_ref}
use crack.Grammar.Runs.{
  size, weight, Ends, left, stopped, faulted, Ends-bind, then_act, then_or_fail, then_require,
  then_token,
}
use crack.Prelude.{
  ℕ, suc, leb, ◌+◌, ◌*◌, ◌<◌, Bool, true, false, Option, some, none, List, ◌∷◌, arith, ◌≡◌, refl,
}
use crack.Token.{Token, TokenType, type_code, ◌is◌}
use crack.Grammar.Ends.Given.{Below}

module _ (L : Language) (f : ℕ) (below : Below L f) where
  pub secondary-Ends :
      (n : ℕ) (p : ℕ) (first : Bool) (ident : Token) (v : L.Expr) (ts : List Token) (s : L.Context)
      → 30 * (size ts) + 1 < suc f
      → size ts < n
      → Ends n (secondary L (suc f) p first ident v (ts, s))
  unfolding expression size weight taken begun joined type_code
  secondary-Ends n p first ident v ts s h k = then_token L _ ts s λ t ts₁ s₁ h₁.
      below.follow-Ends n (after_of t.type) p first ident v t ts₁ s₁ refl (omega arith)
        (omega arith)

  pub follow-Ends :
      (n : ℕ) (kind : After) (p : ℕ) (first : Bool) (ident : Token) (v : L.Expr) (t : Token)
      (ts : List Token) (s : L.Context)
      → after_of t.type ≡ kind
      → 30 * (weight t.type + size ts) + 0 < suc f
      → weight t.type + size ts < n
      → Ends n (follow L (suc f) kind p first ident v t (ts, s))
  unfolding expression size weight taken begun joined type_code
  follow-Ends n take_attr p first ident v t ts s e h k =
      let w = goes_on t.type take_attr e in
      then_require _ _ _ _ stopped λ _.
        Ends-bind _
          (below.post_dot-Ends (suc (size ts)) v none false ts s (omega arith) (omega arith))
          λ r ts₁ s₁ h₁. below.secondary-Ends n p false ident r.0 ts₁ s₁ (omega arith) (omega arith)
  follow-Ends n take_member p first ident v t ts s e h k =
      let w = goes_on t.type take_member e in
      then_or_fail _ (L.var_ref_def v) _ _ (faulted (cc)) λ def.
        then_or_fail _ (L.def_namespace def) _ _ stopped λ ns.
          Ends-bind _
            (scoping-again L f (suc (size ts)) ns t ts s (after-scoping t.type e) (omega arith)
              (omega arith))
            λ got ts₁ s₁ h₁. then_or_fail _ got _ _ (faulted (cc)) λ found.
              usable-Ends L n found.0 t _ ts₁ s₁ _ (
                then_act _ _ _ λ v' s₂.
                  below.secondary-Ends n p false ident v' ts₁ s₂ (omega arith) (omega arith))
  follow-Ends n take_index p first ident v t ts s e h k =
      let w = goes_on t.type take_index e in
      below.follow_bracket-Ends n (convert_type_ref L v) p ident v t ts s (omega arith)
        (omega arith)
  follow-Ends n take_call p first ident v t ts s e h k =
      let w = goes_on t.type take_call e in
      Ends-bind _
        (below.method_args-Ends (suc (size ts)) TokenType.rparen ts s (omega arith) (omega arith))
        λ args ts₁ s₁ h₁.
          then_act _ _ _
            λ v' s₂. below.secondary-Ends n p false ident v' ts₁ s₂ (omega arith) (omega arith)
  follow-Ends n take_bump p first ident v t ts s e h k =
      let w = goes_on t.type take_bump e in
      Ends-bind _ (op_call-Keeps L _ _ t v (suc (size ts)) ts s (omega arith))
        λ v' ts₁ s₁ h₁. below.secondary-Ends n p false ident v' ts₁ s₁ (omega arith) (omega arith)
  follow-Ends n take_bin p first ident v t ts s e h k =
      let w = goes_on t.type take_bin e in
      Ends-bind _ (get_precedence-Keeps L _ (suc (size ts)) ts s (omega arith)) λ level ts₁ s₁ h₁.
        below.follow_bin-Ends n (leb level p) level p ident v t ts₁ s₁ (omega arith) (omega arith)
  follow-Ends n take_format p first ident v t ts s e h k =
      let w = goes_on t.type take_format e in
      Ends-bind _ (below.parse_istring-Ends (suc (size ts)) v ts s (omega arith) (omega arith))
        λ v' ts₁ s₁ h₁. below.secondary-Ends n p false ident v' ts₁ s₁ (omega arith) (omega arith)
  follow-Ends n take_quest p first ident v t ts s e h k =
      let w = goes_on t.type take_quest e in
      then_token L _ ts s λ t₂ ts₂ s₂ h₂.
        below.follow_quest-Ends n (t₂.type is TokenType.dot) p ident v t t₂ ts₂ s₂ (omega arith)
          (omega arith)
  follow-Ends n take_bang p first ident v t ts s e h k =
      let w = goes_on t.type take_bang e in
      then_raw _ ts s λ t₂ ts₂ h₂.
        below.follow_bang-Ends n (t₂.type is TokenType.is_kw) p ident v t t₂ ts₂ s (omega arith)
          (omega arith)
  follow-Ends n take_assign p first ident v t ts s e h k =
      let w = goes_on t.type take_assign e in
      Ends-bind _ (below.expression-Ends (size ts) 0 ts s (omega arith) (omega arith))
        λ val ts₁ s₁ h₁.
          Ends-bind _ (make_assign-Keeps L v t val (size ts) ts₁ s₁ h₁) λ v' ts₂ s₂ h₂.
            below.secondary-Ends n p false ident v' ts₂ s₂ (omega arith) (omega arith)
  follow-Ends n take_define p first ident v t ts s e h k =
      let w = goes_on t.type take_define e in
      then_require _ _ _ _ stopped λ _. then_act _ _ _ λ old s₁.
        Ends-bind _ (check_again-Keeps L ident old (suc (size ts)) ts s₁ (omega arith))
          λ _ ts₂ s₂ h₂. below.parse_define-Ends n ident ts₂ s₂ (omega arith) (omega arith)
  follow-Ends n leave p first ident v t ts s e h k = let w = goes_on t.type leave e in left k

  pub follow_bracket-Ends :
      (n : ℕ) (T : Option L.TypeDef) (p : ℕ) (ident : Token) (v : L.Expr) (t : Token)
      (ts : List Token) (s : L.Context)
      → 30 * (size ts) + 12 < suc f
      → size ts < n
      → Ends n (follow_bracket L (suc f) T p ident v t (ts, s))
  unfolding expression size weight taken begun joined type_code
  follow_bracket-Ends n (some generic) p ident v t ts s h k =
      Ends-bind _
        (below.specializer-Ends (suc (size ts)) t generic ts s (omega arith) (omega arith))
        λ T ts₁ s₁ h₁. then_token L _ ts₁ s₁ λ t₂ ts₂ s₂ h₂.
          below.follow_type-Ends n (t₂.type is TokenType.lparen) T p ident t₂ ts₂ s₂ (omega arith)
            (omega arith)
  follow_bracket-Ends n none p ident v t ts s h k =
      Ends-bind _ (below.index-Ends (suc (size ts)) v t ts s (omega arith) (omega arith))
        λ v' ts₁ s₁ h₁. below.secondary-Ends n p false ident v' ts₁ s₁ (omega arith) (omega arith)

  pub follow_type-Ends :
      (n : ℕ) (called : Bool) (T : L.TypeDef) (p : ℕ) (ident t : Token) (ts : List Token)
      (s : L.Context)
      → 30 * (weight t.type + size ts) + 10 < suc f
      → weight t.type + size ts < n
      → Ends n (follow_type L (suc f) called T p ident t (ts, s))
  unfolding expression size weight taken begun joined type_code
  follow_type-Ends n true T p ident t ts s h k =
      Ends-bind _
        (below.method_args-Ends (suc (size ts)) TokenType.rparen ts s (omega arith) (omega arith))
        λ args ts₁ s₁ h₁. then_act _ _ _ λ func s₂.
          then_act _ _ _
            λ v' s₃. below.secondary-Ends n p false ident v' ts₁ s₃ (omega arith) (omega arith)
  follow_type-Ends n false T p ident t ts s h k = then_act _ _ _ λ v' s₁.
      below.follow-Ends n (after_of t.type) p false ident v' t ts s₁ refl (omega arith)
        (omega arith)

  pub follow_bin-Ends :
      (n : ℕ) (ends : Bool) (level : ℕ) (p : ℕ) (ident : Token) (v : L.Expr) (t : Token)
      (ts : List Token) (s : L.Context)
      → 30 * (size ts) + 4 < suc f
      → weight t.type + size ts < n
      → Ends n (follow_bin L (suc f) ends level p ident v t (ts, s))
  unfolding expression size weight taken begun joined type_code
  follow_bin-Ends n true level p ident v t ts s h k = left k
  follow_bin-Ends n false level p ident v t ts s h k =
      Ends-bind _ (below.expression-Ends (size ts) level ts s (omega arith) (omega arith))
        λ rhs ts₁ s₁ h₁.
          Ends-bind _ (bin_call-Keeps L t v rhs (size ts) ts₁ s₁ h₁) λ v' ts₂ s₂ h₂.
            below.secondary-Ends n p false ident v' ts₂ s₂ (omega arith) (omega arith)

  pub follow_quest-Ends :
      (n : ℕ) (safe : Bool) (p : ℕ) (ident : Token) (v : L.Expr) (t t₂ : Token) (ts : List Token)
      (s : L.Context)
      → 30 * (weight t₂.type + size ts) + 12 < suc f
      → weight t.type + (weight t₂.type + size ts) < n
      → Ends n (follow_quest L (suc f) safe p ident v t t₂ (ts, s))
  unfolding expression size weight taken begun joined type_code
  follow_quest-Ends n true p ident v t t₂ ts s h k = then_require _ _ _ _ stopped λ _.
      Ends-bind _ (below.post_dot-Ends (suc (size ts)) v none true ts s (omega arith) (omega arith))
        λ r ts₁ s₁ h₁. below.secondary-Ends n p false ident r.0 ts₁ s₁ (omega arith) (omega arith)
  follow_quest-Ends n false p ident v t t₂ ts s h k =
      below.follow_ternary-Ends n (leb 1 p) p ident v t (t₂ ∷ ts) s (omega arith) (omega arith)
