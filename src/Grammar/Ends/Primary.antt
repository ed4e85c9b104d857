-- ===== src/Grammar/Ends/Primary.antt =====
-- parsePrimary and parsePostDot: a call with one unit of fuel more.
use crack.Grammar.{bind, end_token}
use crack.Grammar.Consumed.{
  taken, begun, goes_on, after-scoping, joined, get_token-typed, scoping-again,
}
use crack.Grammar.Descent.{
  expression, primary, start_primary, name_primary, accessor_primary, primary_loop, extend,
  extend_bracket, extend_quest, post_dot, dotted, type_spec,
}
use crack.Grammar.Interface.{Language}
use crack.Grammar.Keeps.{emit_oper_class-Keeps, wrap_in_null_check-Keeps}
use crack.Grammar.Kinds.{After, after_of, Dotted, dotted_of}
use crack.Grammar.Kinds.{
  take_attr, take_member, take_index, take_quest, dot_name, dot_oper, dot_class, no_dotted,
}
use crack.Grammar.Parts.{safe_receiver-Keeps, accessor_of-Keeps, implicit_this-Keeps, defined-Keeps}
use crack.Grammar.Reading.{oper_spec-Keeps, member-Keeps}
use crack.Grammar.Rounds.{convert_type_ref, scope_of}
use crack.Grammar.Runs.{
  size, weight, Ends, left, stopped, faulted, Ends-bind, then_act, then_or_fail, then_token,
}
use crack.Prelude.{
  ℕ, suc, ◌+◌, ◌*◌, ◌<◌, Bool, true, false, Option, some, none, List, ◌∷◌, Outcome, arith, ◌≡◌,
  refl,
}
use crack.Token.{Token, TokenType, type_code, ◌is◌}
use crack.Grammar.Ends.Given.{Below}

module _ (L : Language) (f : ℕ) (below : Below L f) where
  -- `scope_of` reads nothing.
  scope_then-Ends :
      {B : Type 0} (n : ℕ) (T : Option L.TypeDef) (ts : List Token) (s : L.Context)
      (g : L.Namespace × (List Token × L.Context) → Outcome (B × (List Token × L.Context)))
      → ((ns : L.Namespace) → Ends n (g (ns, (ts, s))))
      → Ends n (bind (scope_of L T (ts, s)) g)
  scope_then-Ends n (some T) ts s g h = h _
  scope_then-Ends n none ts s g h = h _

  pub primary-Ends :
      (n : ℕ) (t : Token) (ts : List Token) (s : L.Context)
      → t.type ≡ TokenType.ident
      → 30 * size ts + 20 < suc f
      → size ts < n
      → Ends n (primary L (suc f) (t ∷ ts, s))
  unfolding expression size weight taken begun joined type_code
  primary-Ends n t ts s e h k = rw (get_token-typed L t TokenType.ident ts s e refl refl) (
      below.start_primary-Ends n (t.type is TokenType.typeof_kw) t ts _ (omega arith) (omega arith))

  pub start_primary-Ends :
      (n : ℕ) (is_typeof : Bool) (t : Token) (ts : List Token) (s : L.Context)
      → 30 * (size ts) + 15 < suc f
      → size ts < n
      → Ends n (start_primary L (suc f) is_typeof t (ts, s))
  unfolding expression size weight taken begun joined type_code
  start_primary-Ends n true t ts s h k =
      Ends-bind _ (below.parse_typeof-Ends (suc (size ts)) ts s (omega arith) (omega arith))
        λ T ts₁ s₁ h₁.
          then_act _ _ _ λ v s₂.
            below.primary_loop-Ends n v (some T) end_token ts₁ s₂ (omega arith) (omega arith)
  start_primary-Ends n false t ts s h k =
      Ends-bind _ (defined-Keeps L t (suc (size ts)) ts s (omega arith))
        λ def ts₁ s₁ h₁. below.name_primary-Ends n def t ts₁ s₁ (omega arith) (omega arith)

  pub name_primary-Ends :
      (n : ℕ) (def : Option L.Def) (t : Token) (ts : List Token) (s : L.Context)
      → 30 * (size ts) + 8 < suc f
      → size ts < n
      → Ends n (name_primary L (suc f) def t (ts, s))
  unfolding expression size weight taken begun joined type_code
  name_primary-Ends n (some def) t ts s h k = then_act _ _ _ λ _ s₁.
      then_act _ _ _
        λ v s₂. below.primary_loop-Ends n v (L.def_type def) t ts s₂ (omega arith) (omega arith)
  name_primary-Ends n none t ts s h k =
      Ends-bind _ (implicit_this-Keeps L t.text (suc (size ts)) ts s (omega arith))
        λ this ts₁ s₁ h₁.
          Ends-bind _ (accessor_of-Keeps L this t.text (suc (size ts)) ts₁ s₁ h₁) λ found ts₂ s₂ h₂.
            below.accessor_primary-Ends n found t ts₂ s₂ (omega arith) (omega arith)

  pub accessor_primary-Ends :
      (n : ℕ) (o : Option L.Expr) (t : Token) (ts : List Token) (s : L.Context)
      → 30 * (size ts) + 4 < suc f
      → size ts < n
      → Ends n (accessor_primary L (suc f) o t (ts, s))
  unfolding expression size weight taken begun joined type_code
  accessor_primary-Ends n (some v) t ts s h k =
      below.primary_loop-Ends n v none end_token ts s (omega arith) (omega arith)
  accessor_primary-Ends n none t ts s h k = left k

  pub primary_loop-Ends :
      (n : ℕ) (v : L.Expr) (T : Option L.TypeDef) (ident : Token) (ts : List Token) (s : L.Context)
      → 30 * (size ts) + 1 < suc f
      → size ts < n
      → Ends n (primary_loop L (suc f) v T ident (ts, s))
  unfolding expression size weight taken begun joined type_code
  primary_loop-Ends n v T ident ts s h k = then_token L _ ts s λ t ts₁ s₁ h₁.
      below.extend-Ends n (after_of t.type) v T ident t ts₁ s₁ refl (omega arith) (omega arith)

  pub extend-Ends :
      (n : ℕ) (kind : After) (v : L.Expr) (T : Option L.TypeDef) (ident t : Token) (ts : List Token)
      (s : L.Context)
      → after_of t.type ≡ kind
      → 30 * (weight t.type + size ts) + 0 < suc f
      → weight t.type + size ts < n
      → Ends n (extend L (suc f) kind v T ident t (ts, s))
  unfolding expression size weight taken begun joined type_code
  extend-Ends n take_member v T ident t ts s e h k =
      let w = goes_on t.type take_member e in
      scope_then-Ends n T ts s _ λ ns.
        Ends-bind _
          (scoping-again L f (suc (size ts)) ns t ts s (after-scoping t.type e) (omega arith)
            (omega arith))
          λ got ts₁ s₁ h₁. then_or_fail _ got _ _ (faulted (cc)) λ found. then_act _ _ _ λ v' s₂.
            below.primary_loop-Ends n v' (L.def_type found.0) end_token ts₁ s₂ (omega arith)
              (omega arith)
  extend-Ends n take_attr v T ident t ts s e h k =
      let w = goes_on t.type take_attr e in
      Ends-bind _ (below.post_dot-Ends (suc (size ts)) v T false ts s (omega arith) (omega arith))
        λ r ts₁ s₁ h₁.
          below.primary_loop-Ends n r.0 r.1 end_token ts₁ s₁ (omega arith) (omega arith)
  extend-Ends n take_index v T ident t ts s e h k =
      let w = goes_on t.type take_index e in
      below.extend_bracket-Ends n (convert_type_ref L v) v T t ts s (omega arith) (omega arith)
  extend-Ends n take_quest v T ident t ts s e h k =
      let w = goes_on t.type take_quest e in
      then_token L _ ts s λ t₂ ts₂ s₂ h₂.
        below.extend_quest-Ends n (t₂.type is TokenType.dot) v T ident t t₂ ts₂ s₂ (omega arith)
          (omega arith)
  extend-Ends n _ v T ident t ts s e h k = left k

  pub extend_bracket-Ends :
      (n : ℕ) (generic : Option L.TypeDef) (v : L.Expr) (T : Option L.TypeDef) (t : Token)
      (ts : List Token) (s : L.Context)
      → 30 * (size ts) + 12 < suc f
      → size ts < n
      → Ends n (extend_bracket L (suc f) generic v T t (ts, s))
  unfolding expression size weight taken begun joined type_code
  extend_bracket-Ends n (some generic) v T t ts s h k =
      Ends-bind _
        (below.specializer-Ends (suc (size ts)) t generic ts s (omega arith) (omega arith))
        λ T' ts₁ s₁ h₁. then_act _ _ _ λ v' s₂.
          below.primary_loop-Ends n v' (some T') end_token ts₁ s₂ (omega arith) (omega arith)
  extend_bracket-Ends n none v T t ts s h k =
      Ends-bind _ (below.index-Ends (suc (size ts)) v t ts s (omega arith) (omega arith))
        λ v' ts₁ s₁ h₁. below.primary_loop-Ends n v' T end_token ts₁ s₁ (omega arith) (omega arith)

  pub extend_quest-Ends :
      (n : ℕ) (safe : Bool) (v : L.Expr) (T : Option L.TypeDef) (ident t t₂ : Token)
      (ts : List Token) (s : L.Context)
      → 30 * (size ts) + 12 < suc f
      → weight t.type + (weight t₂.type + size ts) < n
      → Ends n (extend_quest L (suc f) safe v T ident t t₂ (ts, s))
  unfolding expression size weight taken begun joined type_code
  extend_quest-Ends n true v T ident t t₂ ts s h k =
      Ends-bind _ (below.post_dot-Ends (suc (size ts)) v T true ts s (omega arith) (omega arith))
        λ r ts₁ s₁ h₁.
          below.primary_loop-Ends n r.0 r.1 end_token ts₁ s₁ (omega arith) (omega arith)
  extend_quest-Ends n false v T ident t t₂ ts s h k = left k

  pub post_dot-Ends :
      (n : ℕ) (v : L.Expr) (T : Option L.TypeDef) (safe : Bool) (ts : List Token) (s : L.Context)
      → 30 * (size ts) + 8 < suc f
      → size ts < n
      → Ends n (post_dot L (suc f) v T safe (ts, s))
  unfolding expression size weight taken begun joined type_code
  post_dot-Ends n v T safe ts s h k = then_token L _ ts s λ t ts₁ s₁ h₁.
      Ends-bind _ (safe_receiver-Keeps L safe v (suc (size ts)) ts₁ s₁ (omega arith)) λ r ts₂ s₂ h₂.
        below.dotted-Ends n (dotted_of t.type) r.0 r.1 T t ts₂ s₂ (omega arith) (omega arith)

  pub dotted-Ends :
      (n : ℕ) (kind : Dotted) (guard : Option L.Expr) (v : L.Expr) (T : Option L.TypeDef)
      (t : Token) (ts : List Token) (s : L.Context)
      → 30 * (size ts) + 7 < suc f
      → size ts < n
      → Ends n (dotted L (suc f) kind guard v T t (ts, s))
  unfolding expression size weight taken begun joined type_code
  dotted-Ends n dot_name guard v T t ts s h k = member-Keeps L guard v T t _ _ n ts s k
  dotted-Ends n dot_oper guard v T t ts s h k =
      Ends-bind _
        (oper_spec-Keeps L n (type_spec L f) ts s
          (λ ts' s' k'. below.type_spec-Ends n ts' s' (omega arith) (omega arith)) k)
        λ names ts₁ s₁ h₁. member-Keeps L guard v T t names.0 names.1 n ts₁ s₁ h₁
  dotted-Ends n dot_class guard v T t ts s h k =
      Ends-bind _ (emit_oper_class-Keeps L v t n ts s k) λ call ts₁ s₁ h₁.
        Ends-bind _ (wrap_in_null_check-Keeps L guard call n ts₁ s₁ h₁) λ v' ts₂ s₂ h₂. left h₂
  dotted-Ends n no_dotted guard v T t ts s h k = stopped
