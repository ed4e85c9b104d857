-- ===== src/Grammar/Ends/Sequences.antt =====
-- parseMethodArgs, parseConstSequence and parseIString: a call with one unit of fuel more.
use crack.Grammar.Consumed.{taken, begun, joined, joined-part}
use crack.Grammar.Descent.{
  expression, method_args, args_from, const_sequence, elements, parse_istring, format_parts,
  format_part,
}
use crack.Grammar.Interface.{Language}
use crack.Grammar.Kinds.{Part, part_of, is_empty}
use crack.Grammar.Kinds.{part_end, part_empty, part_text, part_name, part_paren, no_part}
use crack.Grammar.Parts.{
  open_format-Keeps, format_call-Keeps, close_format-Keeps, then_behind_comma, then_behind_element,
}
use crack.Grammar.Runs.{
  size, weight, Ends, left, stopped, Ends-act, Ends-bind, then_act, then_require, then_token,
}
use crack.Prelude.{ℕ, suc, ◌+◌, ◌*◌, ◌<◌, ◌≤◌, Bool, true, false, List, ◌∷◌, arith}
use crack.Token.{Token, TokenType, type_code, ◌is◌}
use crack.Grammar.Ends.Given.{Below}

module _ (L : Language) (f : ℕ) (below : Below L f) where
  pub method_args-Ends :
      (n : ℕ) (stop : TokenType) (ts : List Token) (s : L.Context)
      → 30 * (size ts) + 3 < suc f
      → size ts < n
      → Ends n (method_args L (suc f) stop (ts, s))
  unfolding expression size weight taken begun joined type_code
  method_args-Ends n stop ts s h k = then_token L _ ts s λ t ts₁ s₁ h₁.
      below.args_from-Ends n (t.type is stop) stop t ts₁ s₁ (omega arith) (omega arith)

  pub args_from-Ends :
      (n : ℕ) (ends : Bool) (stop : TokenType) (t : Token) (ts : List Token) (s : L.Context)
      → 30 * (weight t.type + size ts) + 2 < suc f
      → weight t.type + size ts < n
      → Ends n (args_from L (suc f) ends stop t (ts, s))
  unfolding expression size weight taken begun joined type_code
  args_from-Ends n true stop t ts s h k = left (omega arith)
  args_from-Ends n false stop t ts s h k =
      Ends-bind _ (below.expression-Ends (size (t ∷ ts)) 0 (t ∷ ts) s (omega arith) (omega arith))
        λ arg ts₁ s₁ h₁. then_token L _ ts₁ s₁ λ t₂ ts₂ s₂ h₂.
          then_behind_comma L _ t₂ ts₂ s₂ λ t₃ ts₃ s₃ h₃.
            Ends-bind _
              (below.args_from-Ends n (t₃.type is stop) stop t₃ ts₃ s₃ (omega arith) (omega arith))
              λ rest ts₄ s₄ h₄. left h₄

  pub const_sequence-Ends :
      (n : ℕ) (T : L.TypeDef) (ts : List Token) (s : L.Context)
      → 30 * (size ts) + 3 < suc f
      → size ts < n
      → Ends n (const_sequence L (suc f) T (ts, s))
  unfolding expression size weight taken begun joined type_code
  const_sequence-Ends n T ts s h k = then_token L _ ts s λ t ts₁ s₁ h₁.
      Ends-bind _
        (below.elements-Ends n (t.type is TokenType.rbracket) t ts₁ s₁ (omega arith) (omega arith))
        λ es ts₂ s₂ h₂. Ends-act _ _ h₂

  pub elements-Ends :
      (n : ℕ) (ends : Bool) (t : Token) (ts : List Token) (s : L.Context)
      → 30 * (weight t.type + size ts) + 2 < suc f
      → weight t.type + size ts < n
      → Ends n (elements L (suc f) ends t (ts, s))
  unfolding expression size weight taken begun joined type_code
  elements-Ends n true t ts s h k = left (omega arith)
  elements-Ends n false t ts s h k =
      Ends-bind _ (below.expression-Ends (size (t ∷ ts)) 0 (t ∷ ts) s (omega arith) (omega arith))
        λ v ts₁ s₁ h₁. then_token L _ ts₁ s₁ λ t₂ ts₂ s₂ h₂.
          then_behind_element L _ t₂ ts₂ s₂ λ t₃ ts₃ s₃ h₃.
            Ends-bind _
              (below.elements-Ends n (t₃.type is TokenType.rbracket) t₃ ts₃ s₃ (omega arith)
                (omega arith))
              λ rest ts₄ s₄ h₄. left h₄

  pub parse_istring-Ends :
      (n : ℕ) (v : L.Expr) (ts : List Token) (s : L.Context)
      → 30 * (size ts) + 4 < suc f
      → size ts < n
      → Ends n (parse_istring L (suc f) v (ts, s))
  unfolding expression size weight taken begun joined type_code
  parse_istring-Ends n v ts s h k = then_act _ _ _ λ reg s₁.
      Ends-bind _ (open_format-Keeps L v reg (suc (size ts)) ts s₁ (omega arith))
        λ opened ts₂ s₂ h₂.
          Ends-bind _ (below.format_parts-Ends n opened.0 ts₂ s₂ (omega arith) (omega arith))
            λ parts ts₃ s₃ h₃. close_format-Keeps L _ _ opened.0 n ts₃ s₃ h₃

  pub format_parts-Ends :
      (n : ℕ) (reg : L.Expr) (ts : List Token) (s : L.Context)
      → 30 * (size ts) + 3 < suc f
      → size ts < n
      → Ends n (format_parts L (suc f) reg (ts, s))
  unfolding expression size weight taken begun joined type_code
  format_parts-Ends n reg ts s h k = then_token L _ ts s λ t ts₁ s₁ h₁.
      below.format_part-Ends n (part_of t.type (is_empty t.text)) reg t ts₁ s₁
        (joined-part t.type (is_empty t.text)) (omega arith) (omega arith)

  pub format_part-Ends :
      (n : ℕ) (kind : Part) (reg : L.Expr) (t : Token) (ts : List Token) (s : L.Context)
      → joined kind ≤ weight t.type
      → 30 * (weight t.type + size ts) + 2 < suc f
      → weight t.type + size ts < n
      → Ends n (format_part L (suc f) kind reg t (ts, s))
  unfolding expression size weight taken begun joined type_code
  format_part-Ends n part_end reg t ts s e h k = left (omega arith)
  format_part-Ends n part_empty reg t ts s e h k =
      below.format_parts-Ends n reg ts s (omega arith) (omega arith)
  format_part-Ends n part_text reg t ts s e h k = then_act _ _ _ λ arg s₁.
      Ends-bind _ (format_call-Keeps L _ arg reg (suc (size ts)) ts s₁ (omega arith))
        λ call ts₅ s₅ h₅.
          Ends-bind _ (below.format_parts-Ends n reg ts₅ s₅ (omega arith) (omega arith))
            λ rest ts₆ s₆ h₆. left h₆
  format_part-Ends n part_name reg t ts s e h k = then_act _ _ _ λ arg s₁.
      Ends-bind _ (format_call-Keeps L _ arg reg (suc (size ts)) ts s₁ (omega arith))
        λ call ts₅ s₅ h₅.
          Ends-bind _ (below.format_parts-Ends n reg ts₅ s₅ (omega arith) (omega arith))
            λ rest ts₆ s₆ h₆. left h₆
  format_part-Ends n part_paren reg t ts s e h k =
      Ends-bind _ (below.expression-Ends (size ts) 0 ts s (omega arith) (omega arith))
        λ arg ts₁ s₁ h₁. then_token L _ ts₁ s₁ λ t₂ ts₂ s₂ h₂. then_require _ _ _ _ stopped λ _.
          Ends-bind _ (format_call-Keeps L _ arg reg (suc (size ts)) ts₂ s₂ (omega arith))
            λ call ts₅ s₅ h₅.
              Ends-bind _ (below.format_parts-Ends n reg ts₅ s₅ (omega arith) (omega arith))
                λ rest ts₆ s₆ h₆. left h₆
  format_part-Ends n no_part reg t ts s e h k = stopped
