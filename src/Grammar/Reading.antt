-- ===== src/Grammar/Reading.antt =====
-- The steps of the parser that read tokens themselves, and the tokens that they leave.
use crack.Grammar.{bind, Parse}
use crack.Grammar.Interface.{Language}
use crack.Grammar.Keeps.{wrap_in_null_check-Keeps}
use crack.Grammar.Members
use crack.Grammar.Members.{
  Scoped, next_scope, behind_scope, scoping, more_strings, oper_spec, member, scoped_member,
  operator, Spec, spec_of, usable, Selected, selected, type_member, find_in_type, or_type_member,
  member_value, own_member,
}
use crack.Grammar.Runs.{
  size, weight, Ends, left, stopped, Ends-act, Ends-bind, then_act, then_or_fail, then_require,
  then_token, Keeps, Ends-branch,
}
use crack.Prelude.{
  ℕ, zero, suc, Outcome, ◌+◌, ◌<◌, ◌≤◌, true, Option, some, none, List, ◌++◌, Bytes, arith, ◌≡◌, ap,
  sym, ◌∙◌,
}
use crack.Token.{Token, TokenType, ◌is◌, type_code}
use crack.Token.Codes.{type_of_code, type_of_code-type_code}

-- Types with the same value are the same.
is-eq : (t u : TokenType) → (t is u) ≡ true → t ≡ u
is-eq t u h =
    let same : type_code t ≡ type_code u = ground arith in
    let found =
      sym (type_of_code-type_code t) ∙ (ap type_of_code same ∙ type_of_code-type_code u) in
    cc found

pub weight-is : (t u : TokenType) → (t is u) ≡ true → weight t ≡ weight u
weight-is t u h = ap weight (is-eq t u h)

module _ (L : Language) where
  scoped_member-Keeps : (ns : L.Namespace) (t : Token) → Keeps (scoped_member L ns t)
  scoped_member-Keeps ns t n ts s h = then_require _ (t.type is TokenType.ident) _ _ stopped λ _.
      then_act _ _ _
        λ found s₁. then_or_fail _ found _ _ stopped λ var. then_act _ _ _ λ _ s₂. left h

  next_scope-Ends :
      (n : ℕ) (o : Option L.Namespace) (got : Scoped L)
      (go : L.Namespace → Parse L.Context (Scoped L)) (ts : List Token) (s : L.Context)
      → size ts < n
      → ((ns : L.Namespace) → Ends n (go ns (ts, s)))
      → Ends n (next_scope L o got go (ts, s))
  unfolding next_scope
  next_scope-Ends n (some ns) got go ts s h k = k ns
  next_scope-Ends n none got go ts s h k = left h

  behind-Ends :
      (n : ℕ) (ns : L.Namespace) (go : L.Namespace → Scoped L → Parse L.Context (Scoped L))
      (ts : List Token) (s : L.Context)
      → size ts < n
      → ((ns' : L.Namespace) (got : Scoped L) (ts' : List Token) (s' : L.Context)
          → size ts' ≤ size ts
          → Ends n (go ns' got (ts', s')))
      → Ends n (behind_scope L ns go (ts, s))
  unfolding behind_scope
  behind-Ends n ns go ts s h k = then_token L _ ts s λ ident ts₁ s₁ h₁.
      Ends-bind _ (scoped_member-Keeps ns ident (suc (size ts₁)) ts₁ s₁ (omega arith))
        λ var ts₂ s₂ h₂.
          next_scope-Ends n (L.def_namespace var) _ _ ts₂ s₂ (omega arith)
            λ ns'. k ns' _ ts₂ s₂ (omega arith)

  -- The chain of scoping operators ends with fuel for every token to come.
  pub scoping-Ends :
      (f n : ℕ) (ns : L.Namespace) (got : Option (L.Def × Token)) (ts : List Token) (s : L.Context)
      → size ts < f
      → size ts < n
      → Ends n (scoping L f ns got (ts, s))
  unfolding scoping size weight
  scoping-Ends zero n ns got ts s h k = absurd (omega arith)
  scoping-Ends (suc f) n ns got ts s h k = then_token L _ ts s λ t ts₁ s₁ h₁.
      Ends-branch (t.type is TokenType.scoping) _ _ _
        (λ e.
          let one = weight-is t.type TokenType.scoping e in
          behind-Ends n ns (scoping L f) ts₁ s₁ (omega arith)
            λ ns' got' ts' s' k'. scoping-Ends f n ns' got' ts' s' (omega arith) (omega arith))
        λ _. left (omega arith)

  pub behind_scope-Ends :
      (f n : ℕ) (ns : L.Namespace) (ts : List Token) (s : L.Context)
      → size ts < f
      → size ts < n
      → Ends n (behind_scope L ns (scoping L f) (ts, s))
  behind_scope-Ends f n ns ts s h k =
      behind-Ends n ns (scoping L f) ts s k
        λ ns' got' ts' s' k'. scoping-Ends f n ns' got' ts' s' (omega arith) (omega arith)

  pub more_strings-Ends :
      (f n : ℕ) (text : Bytes) (t : Token) (ts : List Token) (s : L.Context)
      → weight t.type + size ts < f
      → weight t.type + size ts < n
      → Ends n (more_strings L f text t (ts, s))
  unfolding more_strings size weight
  more_strings-Ends zero n text t ts s h k = absurd (omega arith)
  more_strings-Ends (suc f) n text t ts s h k =
      Ends-branch (t.type is TokenType.string) _ _ _
        (λ e.
          let one = weight-is t.type TokenType.string e in
          then_token L _ ts s λ t₁ ts₁ s₁ h₁.
            more_strings-Ends f n (text ++ t.text) t₁ ts₁ s₁ (omega arith) (omega arith))
        λ _. left (omega arith)

  -- The first string is one, so that a token is taken.
  pub first_string-Ends :
      (f n : ℕ) (text : Bytes) (t : Token) (ts : List Token) (s : L.Context)
      → t.type ≡ TokenType.string
      → suc (size ts) < f
      → size ts < n
      → Ends n (more_strings L f text t (ts, s))
  unfolding more_strings type_code
  first_string-Ends zero n text t ts s e h k = absurd (omega arith)
  first_string-Ends (suc f) n text t ts s e h k = rw e (
      then_token L _ ts s λ t₁ ts₁ s₁ h₁.
        more_strings-Ends f n (text ++ t.text) t₁ ts₁ s₁ (omega arith) (omega arith))

  operator-Ends :
      (n : ℕ) (type_spec : Parse L.Context L.TypeDef) (spec : Spec) (t : Token) (ts₁ : List Token)
      (s₁ : L.Context)
      → ((ts' : List Token) (s' : L.Context) → size ts' ≤ size ts₁ → Ends n (type_spec (ts', s')))
      → size ts₁ < n
      → Ends n (operator L type_spec spec t (ts₁, s₁))
  unfolding size
  operator-Ends n type_spec Members.plain_spec t ts₁ s₁ r h₁ = left (omega arith)
  operator-Ends n type_spec Members.bump_spec t ts₁ s₁ r h₁ =
      then_token L _ ts₁ s₁ λ t₂ ts₂ s₂ h₂. then_require _ _ _ _ stopped λ _. left (omega arith)
  operator-Ends n type_spec Members.attr_spec t ts₁ s₁ r h₁ = then_token L _ ts₁ s₁ λ t₂ ts₂ s₂ h₂.
      then_require _ _ _ _ stopped λ _. then_token L _ ts₂ s₂ λ t₃ ts₃ s₃ h₃.
        Ends-branch (t₃.type is TokenType.assign) _ _ _ (λ _. left (omega arith))
          λ _. left (omega arith)
  operator-Ends n type_spec Members.x_spec t ts₁ s₁ r h₁ =
      then_token L _ ts₁ s₁ λ t₂ ts₂ s₂ h₂. then_require _ _ _ _ stopped λ _. left (omega arith)
  operator-Ends n type_spec Members.index_spec t ts₁ s₁ r h₁ = then_token L _ ts₁ s₁ λ t₂ ts₂ s₂ h₂.
      then_require _ _ _ _ stopped λ _. then_token L _ ts₂ s₂ λ t₃ ts₃ s₃ h₃.
        Ends-branch (t₃.type is TokenType.assign) _ _ _ (λ _. left (omega arith))
          λ _. left (omega arith)
  operator-Ends n type_spec Members.convert_spec t ts₁ s₁ r h₁ =
      Ends-bind _ (r ts₁ s₁ (omega arith)) λ _ ts₂ s₂ h₂. left h₂
  operator-Ends n type_spec Members.reverse_spec t ts₁ s₁ r h₁ =
      then_token L _ ts₁ s₁ λ t₂ ts₂ s₂ h₂. then_require _ _ _ _ stopped λ _. left (omega arith)
  operator-Ends n type_spec Members.no_spec t ts₁ s₁ r h₁ = stopped

  -- A conversion reads a type behind the operator's token.
  pub oper_spec-Keeps :
      (n : ℕ) (type_spec : Parse L.Context L.TypeDef) (ts : List Token) (s : L.Context)
      → ((ts' : List Token) (s' : L.Context) → size ts' ≤ size ts → Ends n (type_spec (ts', s')))
      → size ts < n
      → Ends n (oper_spec L type_spec (ts, s))
  unfolding oper_spec
  oper_spec-Keeps n type_spec ts s r h = then_token L _ ts s λ t ts₁ s₁ h₁.
      operator-Ends n type_spec (spec_of t.type t.text) t ts₁ s₁
        (λ ts' s' k. r ts' s' (omega arith)) (omega arith)

  selected-Keeps : (e : L.Expr) (def : L.Def) (access : Bytes) → Keeps (selected L e def access)
  selected-Keeps e def access n ts s h = then_act _ _ _ λ _ _. left h

  pub usable-Ends :
      {B : Type 0} (n : ℕ) (def : L.Def) (t : Token) (name : Bytes) (ts : List Token)
      (s : L.Context)
      (f : Unit {0} × (List Token × L.Context) → Outcome (B × (List Token × L.Context)))
      → Ends n (f (tt, (ts, s)))
      → Ends n (bind (usable L def t name (ts, s)) f)
  usable-Ends n def t name ts s f h = then_require f (L.is_usable def s) _ _ stopped λ _. h

  type_member-Keeps :
      (guard : Option L.Expr) (e : L.Expr) (T : Option L.TypeDef) (found : Option L.Def) (t : Token)
      (name access : Bytes)
      → Keeps (type_member L guard e T found t name access)
  type_member-Keeps guard e T (some def) t name access n ts s h = usable-Ends n def t name ts s _ (
      then_act _ _ _ λ ref s₁.
        Ends-bind _ (wrap_in_null_check-Keeps L guard ref n ts s₁ h)
          λ e' ts₂ s₂ h₂. selected-Keeps e' _ access n ts₂ s₂ h₂)
  type_member-Keeps guard e none none t name access n ts s h = stopped
  type_member-Keeps guard e (some T) none t name access n ts s h = stopped

  find_in_type-Keeps : (T : Option L.TypeDef) (name : Bytes) → Keeps (find_in_type L T name)
  find_in_type-Keeps (some T) name n ts s h = Ends-act _ _ h
  find_in_type-Keeps none name n ts s h = left h

  or_type_member-Keeps :
      (guard : Option L.Expr) (e : L.Expr) (T : Option L.TypeDef) (accessor : Option L.Expr)
      (t : Token) (name access : Bytes)
      → Keeps (or_type_member L guard e T accessor t name access)
  or_type_member-Keeps guard e T (some accessor) t name access n ts s h = left h
  or_type_member-Keeps guard e T none t name access n ts s h =
      Ends-bind _ (find_in_type-Keeps T name n ts s h)
        λ found ts₁ s₁ h₁. type_member-Keeps guard e T found t name access n ts₁ s₁ h₁

  member_value-Keeps :
      (e : L.Expr) (def : L.Def) (T : Option L.TypeDef) → Keeps (member_value L e def T)
  member_value-Keeps e def (some T) n ts s h = Ends-act _ _ h
  member_value-Keeps e def none n ts s h = left h

  own_member-Keeps :
      (guard : Option L.Expr) (e : L.Expr) (T : Option L.TypeDef) (found : Option L.Def) (t : Token)
      (name access : Bytes)
      → Keeps (own_member L guard e T found t name access)
  own_member-Keeps guard e T (some def) t name access n ts s h =
      Ends-bind _ (member_value-Keeps e def (L.def_type def) n ts s h) λ value ts₁ s₁ h₁.
        Ends-bind _ (wrap_in_null_check-Keeps L guard value n ts₁ s₁ h₁)
          λ e' ts₂ s₂ h₂. selected-Keeps e' def access n ts₂ s₂ h₂
  own_member-Keeps guard e T none t name access n ts s h =
      then_act _ _ _ λ accessor s₁. or_type_member-Keeps guard e T accessor t name access n ts s₁ h

  pub member-Keeps :
      (guard : Option L.Expr) (e : L.Expr) (T : Option L.TypeDef) (t : Token) (name access : Bytes)
      → Keeps (member L guard e T t name access)
  unfolding member
  member-Keeps guard e T t name access n ts s h =
      then_act _ _ _ λ def s₁. own_member-Keeps guard e T def t name access n ts s₁ h
