-- ===== src/Grammar/Ends/Specs.antt =====
-- parseSpecializer, parseTypeSpec, parseAnyDef and parseTypeof: a call with one unit of fuel more.
use crack.Grammar.Consumed.{taken, begun, joined}
use crack.Grammar.Descent.{
  expression, specializer, sub_types, more_types, type_spec, any_def, start_def, def_loop,
  def_bracket, def_member, def_name, parse_typeof,
}
use crack.Grammar.Interface.{Language}
use crack.Grammar.Parts.{generic_of-Keeps}
use crack.Grammar.Reading.{weight-is}
use crack.Grammar.Runs.{
  size, weight, Ends, left, stopped, faulted, Ends-act, Ends-bind, then_act, then_or_fail,
  then_require, then_token,
}
use crack.Prelude.{
  ℕ, suc, ◌+◌, ◌*◌, ◌<◌, ◌≤◌, Bool, true, false, Option, some, List, ◌∷◌, arith, ◌≡◌, refl,
}
use crack.Token.{Token, TokenType, type_code, ◌is◌}
use crack.Grammar.Ends.Given.{Below}

module _ (L : Language) (f : ℕ) (below : Below L f) where
  pub specializer-Ends :
      (n : ℕ) (t : Token) (T : L.TypeDef) (ts : List Token) (s : L.Context)
      → 30 * (size ts) + 6 < suc f
      → size ts < n
      → Ends n (specializer L (suc f) t T (ts, s))
  unfolding expression size weight taken begun joined type_code
  specializer-Ends n t T ts s h k = then_require _ _ _ _ stopped λ _.
      Ends-bind _ (below.sub_types-Ends n ts s (omega arith) (omega arith))
        λ types ts₁ s₁ h₁. Ends-act _ _ h₁

  pub sub_types-Ends :
      (n : ℕ) (ts : List Token) (s : L.Context)
      → 30 * (size ts) + 5 < suc f
      → size ts < n
      → Ends n (sub_types L (suc f) (ts, s))
  unfolding expression size weight taken begun joined type_code
  sub_types-Ends n ts s h k =
      Ends-bind _ (below.type_spec-Ends (size ts) ts s (omega arith) (omega arith)) λ T ts₁ s₁ h₁.
        then_token L _ ts₁ s₁ λ t ts₂ s₂ h₂.
          below.more_types-Ends n (t.type is TokenType.rbracket) T t ts₂ s₂ (omega arith)
            (omega arith)

  pub more_types-Ends :
      (n : ℕ) (ends : Bool) (T : L.TypeDef) (t : Token) (ts : List Token) (s : L.Context)
      → 30 * (size ts) + 8 < suc f
      → size ts < n
      → Ends n (more_types L (suc f) ends T t (ts, s))
  unfolding expression size weight taken begun joined type_code
  more_types-Ends n true T t ts s h k = left k
  more_types-Ends n false T t ts s h k = then_require _ _ _ _ stopped λ _.
      Ends-bind _ (below.sub_types-Ends n ts s (omega arith) (omega arith))
        λ rest ts₁ s₁ h₁. left h₁

  pub type_spec-Ends :
      (n : ℕ) (ts : List Token) (s : L.Context)
      → 30 * (size ts) + 4 < suc f
      → size ts ≤ n
      → Ends n (type_spec L (suc f) (ts, s))
  unfolding expression size weight taken begun joined type_code
  type_spec-Ends n ts s h k =
      Ends-bind _ (below.any_def-Ends n ts s (omega arith) (omega arith)) λ def ts₁ s₁ h₁.
        then_or_fail _ (L.def_type def) _ _ stopped λ T. then_require _ _ _ _ stopped λ _. left h₁

  pub any_def-Ends :
      (n : ℕ) (ts : List Token) (s : L.Context)
      → 30 * (size ts) + 3 < suc f
      → size ts ≤ n
      → Ends n (any_def L (suc f) (ts, s))
  unfolding expression size weight taken begun joined type_code
  any_def-Ends n ts s h k = then_token L _ ts s λ t ts₁ s₁ h₁.
      below.start_def-Ends n (t.type is TokenType.typeof_kw) t ts₁ s₁
        (weight-is t.type TokenType.typeof_kw) (omega arith) (omega arith)

  pub start_def-Ends :
      (n : ℕ) (is_typeof : Bool) (t : Token) (ts : List Token) (s : L.Context)
      → (is_typeof ≡ true → weight t.type ≡ weight TokenType.typeof_kw)
      → 30 * (weight t.type + size ts) + 2 < suc f
      → weight t.type + size ts ≤ n
      → Ends n (start_def L (suc f) is_typeof t (ts, s))
  unfolding expression size weight taken begun joined type_code
  start_def-Ends n true t ts s e h k =
      let one = e refl in
      Ends-bind _ (below.parse_typeof-Ends (suc (size ts)) ts s (omega arith) (omega arith))
        λ T ts₁ s₁ h₁.
          below.def_loop-Ends n (L.type_def T) (some T) ts₁ _ (omega arith) (omega arith)
  start_def-Ends n false t ts s e h k = then_require _ _ _ _ stopped λ i.
      let one = weight-is t.type TokenType.ident i in
      then_act _ _ _ λ found s₁. then_or_fail _ found _ _ stopped λ def.
        then_act _ _ _
          λ _ s₂. below.def_loop-Ends n def (L.def_type def) ts _ (omega arith) (omega arith)

  pub def_loop-Ends :
      (n : ℕ) (def : L.Def) (T : Option L.TypeDef) (ts : List Token) (s : L.Context)
      → 30 * (size ts) + 12 < suc f
      → size ts < n
      → Ends n (def_loop L (suc f) def T (ts, s))
  unfolding expression size weight taken begun joined type_code
  def_loop-Ends n def T ts s h k = then_token L _ ts s λ t ts₁ s₁ h₁.
      below.def_bracket-Ends n (t.type is TokenType.lbracket) def T t ts₁ s₁ (omega arith)
        (omega arith)

  pub def_bracket-Ends :
      (n : ℕ) (special : Bool) (def : L.Def) (T : Option L.TypeDef) (t : Token) (ts : List Token)
      (s : L.Context)
      → 30 * (weight t.type + size ts) + 11 < suc f
      → weight t.type + size ts < n
      → Ends n (def_bracket L (suc f) special def T t (ts, s))
  unfolding expression size weight taken begun joined type_code
  def_bracket-Ends n true def T t ts s h k =
      Ends-bind _ (generic_of-Keeps L def T t (suc (size ts)) ts s (omega arith))
        λ generic ts₁ s₁ h₁.
          Ends-bind _
            (below.specializer-Ends (suc (size ts)) t generic ts₁ s₁ (omega arith) (omega arith))
            λ T' ts₂ s₂ h₂.
              below.def_member-Ends n (L.type_def T') (some T') ts₂ s₂ (omega arith) (omega arith)
  def_bracket-Ends n false def T t ts s h k =
      below.def_member-Ends n def T (t ∷ ts) s (omega arith) (omega arith)

  pub def_member-Ends :
      (n : ℕ) (def : L.Def) (T : Option L.TypeDef) (ts : List Token) (s : L.Context)
      → 30 * (size ts) + 9 < suc f
      → size ts < n
      → Ends n (def_member L (suc f) def T (ts, s))
  unfolding expression size weight taken begun joined type_code
  def_member-Ends n def T ts s h k =
      then_token L _ ts s
        λ t ts₁ s₁ h₁. below.def_name-Ends n _ def T t ts₁ s₁ (omega arith) (omega arith)

  pub def_name-Ends :
      (n : ℕ) (named : Bool) (def : L.Def) (T : Option L.TypeDef) (t : Token) (ts : List Token)
      (s : L.Context)
      → 30 * (size ts) + 8 < suc f
      → weight t.type + size ts < n
      → Ends n (def_name L (suc f) named def T t (ts, s))
  unfolding expression size weight taken begun joined type_code
  def_name-Ends n true def T t ts s h k = then_token L _ ts s λ ident ts₁ s₁ h₁.
      then_require _ _ _ _ stopped λ i.
        let one = weight-is ident.type TokenType.ident i in
        then_or_fail _ T _ _ (faulted (cc)) λ scope. then_act _ _ _ λ found s₂.
          then_or_fail _ found _ _ stopped λ def'.
            then_act _ _ _ λ _ s₃.
              below.def_loop-Ends n def' (L.def_type def') ts₁ s₃ (omega arith) (omega arith)
  def_name-Ends n false def T t ts s h k = left k

  pub parse_typeof-Ends :
      (n : ℕ) (ts : List Token) (s : L.Context)
      → 30 * (size ts) + 2 < suc f
      → size ts < n
      → Ends n (parse_typeof L (suc f) (ts, s))
  unfolding expression size weight taken begun joined type_code
  parse_typeof-Ends n ts s h k = then_token L _ ts s λ t ts₁ s₁ h₁.
      then_require _ _ _ _ stopped λ _.
        Ends-bind _ (below.expression-Ends (size ts₁) 0 ts₁ _ (omega arith) (omega arith))
          λ v ts₂ s₂ h₂.
            then_token L _ ts₂ s₂
              λ t₃ ts₃ s₃ h₃. then_require _ _ _ _ stopped λ _. left (omega arith)
