-- ===== src/Grammar/Parts.antt =====
-- The steps of Rounds and Formats, and the tokens that they leave.
use crack.Grammar.{bind, pure, fail, unexpected, get_token, or_fail}
use crack.Grammar.Formats.{open_format, format_call, close_format, entered, left as left_format}
use crack.Grammar.Interface.{Language, Acted, done, refused}
use crack.Grammar.Keeps.{const_int-Keeps}
use crack.Grammar.Kinds.{Begin, start_int}
use crack.Grammar.Kinds
use crack.Grammar.Operators.{get_precedence}
use crack.Grammar.Kinds.{find_precedence}
use crack.Grammar.Rounds.{
  raw_token, drop, defined_by, safe_receiver, plus_const, accessor_of, implicit_this, check_again,
  defined, scope_of, behind_comma, behind_element, generic_of,
}
use crack.Grammar.Runs.{
  size, weight, Ends, left, stopped, faulted, Ends-act, Ends-bind, Ends-branch, then_act,
  then_or_fail, then_token, Keeps,
}
use crack.Prelude.{
  ℕ, zero, suc, ◌+◌, ◌≤◌, Bool, true, false, Option, some, none, List, [], ◌∷◌, Bytes, Outcome,
  arith, assertion, codes, if◌then◌else◌,
}
use crack.Token.{Token, TokenType, ◌is◌}

size-drop : (k : ℕ) (ts : List Token) → size (drop k ts) ≤ size ts
unfolding drop size
size-drop zero ts = omega arith
size-drop (suc k) [] = omega arith
size-drop (suc k) (t ∷ ts) = omega (arith, size-drop k ts)

pub then_raw :
    {S B : Type 0} (f : Token × (List Token × S) → Outcome (B × (List Token × S))) {n : ℕ}
    (ts : List Token) (s : S)
    → ((t : Token) (ts' : List Token)
        → weight t.type + size ts' ≤ size ts
        → Ends n (f (t, (ts', s))))
    → Ends n (bind (raw_token (ts, s)) f)
unfolding raw_token size weight
then_raw f [] s h = h _ _ (omega arith)
then_raw f (t ∷ ts) s h = h _ _ (omega arith)

module _ (L : Language) where
  pub then_defined :
      {A B : Type 0} {n : ℕ} (ts : List Token) (r : Acted L.Context (A × ℕ))
      (f : A × (List Token × L.Context) → Outcome (B × (List Token × L.Context)))
      → ((a : A) (ts' : List Token) (s : L.Context) → size ts' ≤ size ts → Ends n (f (a, (ts', s))))
      → Ends n (bind (defined_by L ts r) f)
  unfolding defined_by
  then_defined ts (done (a, k) s) f h = h a (drop k ts) s (size-drop k ts)
  then_defined ts (refused l msg) f h = stopped

  precedence-Keeps : (o : Option ℕ) → Keeps {S = L.Context} (or_fail o (fail assertion))
  unfolding or_fail
  precedence-Keeps (some p) n ts s h = left h
  precedence-Keeps none n ts s h = faulted (cc)

  pub get_precedence-Keeps : (op : Bytes) → Keeps (get_precedence L op)
  unfolding get_precedence
  get_precedence-Keeps op n ts s h = precedence-Keeps (find_precedence op) n ts s h

  entered-Keeps : (o : Option L.FuncDef) (reg : L.Expr) → Keeps (entered L o reg)
  entered-Keeps none reg n ts s h = left h
  entered-Keeps (some f) reg n ts s h = then_act _ _ _ λ call s₁.
      Ends-branch (L.is_void (L.return_type f)) _ _ _ (λ _. left h)
        λ _. then_act _ _ _ λ _ _. left h

  pub open_format-Keeps : (e reg : L.Expr) → Keeps (open_format L e reg)
  unfolding open_format
  open_format-Keeps e reg n ts s h = then_act _ _ _ λ func s₁. entered-Keeps func reg n ts s₁ h

  pub format_call-Keeps : (t : Token) (arg reg : L.Expr) → Keeps (format_call L t arg reg)
  unfolding format_call
  format_call-Keeps t arg reg n ts s h =
      then_act _ _ _ λ func s₁. then_or_fail _ func _ _ stopped λ f. Ends-act _ _ h

  left_format-Keeps :
      (o : Option L.FuncDef) (parts : List L.Expr) (reg : L.Expr)
      → Keeps (left_format L o parts reg)
  left_format-Keeps none parts reg n ts s h = left h
  left_format-Keeps (some f) parts reg n ts s h = then_act _ _ _ λ _ _. left h

  pub close_format-Keeps :
      (formatter : L.Expr) (parts : List L.Expr) (reg : L.Expr)
      → Keeps (close_format L formatter parts reg)
  unfolding close_format
  close_format-Keeps formatter parts reg n ts s h = then_act _ _ _ λ func s₁.
      Ends-bind _ (left_format-Keeps func parts reg n ts s₁ h) λ seq ts₂ s₂ h₂. Ends-act _ _ h₂

  pub safe_receiver-Keeps : (safe : Bool) (e : L.Expr) → Keeps (safe_receiver L safe e)
  safe_receiver-Keeps false e n ts s h = left h
  safe_receiver-Keeps true e n ts s h = then_act _ _ _ λ _ _. left h

  pub plus_const-Keeps : (kind : Begin) (t : Token) → Keeps (plus_const L kind t)
  plus_const-Keeps (start_int base) t n ts s h = const_int-Keeps L t.text base n ts s h
  plus_const-Keeps Kinds.start_float t n ts s h = Ends-act _ _ h
  plus_const-Keeps _ t n ts s h = stopped

  pub accessor_of-Keeps : (this : Option L.Expr) (name : Bytes) → Keeps (accessor_of L this name)
  accessor_of-Keeps (some this) name n ts s h = Ends-act _ _ h
  accessor_of-Keeps none name n ts s h = left h

  pub implicit_this-Keeps : (name : Bytes) → Keeps (implicit_this L name)
  implicit_this-Keeps name n ts s h =
      Ends-branch (L.is_in_method s) _ _ _ (λ _. Ends-act _ _ h) λ _. left h

  pub check_again-Keeps : (t : Token) (def : Option L.Def) → Keeps (check_again L t def)
  check_again-Keeps t (some def) n ts s h = Ends-act _ _ h
  check_again-Keeps t none n ts s h = left h

  pub defined-Keeps : (t : Token) → Keeps (defined L t)
  unfolding size
  defined-Keeps t n ts s h = then_act _ _ _ λ def s₁. then_token L _ ts s₁ λ t₂ ts₂ s₂ h₂.
      Ends-branch (t₂.type is TokenType.define) _ _ _
        (λ _.
          Ends-bind _ (check_again-Keeps t def n (t₂ ∷ ts₂) _ (omega arith)) λ _ ts₃ s₃ h₃. left h₃)
        λ _. left (omega arith)

  pub scope_of-Keeps : (T : Option L.TypeDef) → Keeps (scope_of L T)
  scope_of-Keeps (some T) n ts s h = left h
  scope_of-Keeps none n ts s h = left h

  -- The token that ends an argument, or the one behind its comma.
  pub then_behind_comma :
      {B : Type 0} (f : Token × (List Token × L.Context) → Outcome (B × (List Token × L.Context)))
      {n : ℕ} (t : Token) (ts : List Token) (s : L.Context)
      → ((t' : Token) (ts' : List Token) (s' : L.Context)
          → weight t'.type + size ts' ≤ weight t.type + size ts
          → Ends n (f (t', (ts', s'))))
      → Ends n (bind (behind_comma L t (ts, s)) f)
  then_behind_comma f {n} t ts s h = by_test (t.type is TokenType.comma)
    where
      by_test : (b : Bool) → Ends n (bind ((if b then get_token L else pure t) (ts, s)) f)
      by_test true = then_token L f ts s λ t' ts' s' k. h t' ts' s' (omega arith)
      by_test false = h t ts s (omega arith)

  pub then_behind_element :
      {B : Type 0} (f : Token × (List Token × L.Context) → Outcome (B × (List Token × L.Context)))
      {n : ℕ} (t : Token) (ts : List Token) (s : L.Context)
      → ((t' : Token) (ts' : List Token) (s' : L.Context)
          → weight t'.type + size ts' ≤ weight t.type + size ts
          → Ends n (f (t', (ts', s'))))
      → Ends n (bind (behind_element L t (ts, s)) f)
  then_behind_element f {n} t ts s h =
      by_tests (t.type is TokenType.comma) (t.type is TokenType.rbracket)
    where
      by_tests :
          (b c : Bool)
          → Ends n (
              bind
                ((if b
                    then get_token L
                    else if c
                    then pure t
                    else unexpected t (codes "Expected comma or right bracket after element"))
                  (ts, s))
                f)
      by_tests true c = then_token L f ts s λ t' ts' s' k. h t' ts' s' (omega arith)
      by_tests false true = h t ts s (omega arith)
      by_tests false false = stopped

  pub generic_of-Keeps :
      (def : L.Def) (T : Option L.TypeDef) (t : Token) → Keeps (generic_of L def T t)
  generic_of-Keeps def (some T) t n ts s h =
      Ends-branch (L.is_generic T) _ _ _ (λ _. left h) λ _. stopped
  generic_of-Keeps def none t n ts s h = stopped
