-- ===== src/Grammar/Ends/Given.antt =====
-- What the functions of Descent do with an amount of fuel: each has an offset of its own, so that a
-- call that reads nothing leaves enough.
use crack.Grammar.Consumed.{joined}
use crack.Grammar.Descent.{
  expression, begin, behind_primary, secondary, follow, follow_bracket, follow_type, follow_bin,
  follow_quest, follow_ternary, follow_bang, follow_not_is, parse_define, index, index_value,
  primary, start_primary, name_primary, accessor_primary, primary_loop, extend, extend_bracket,
  extend_quest, post_dot, dotted, method_args, args_from, specializer, sub_types, more_types,
  type_spec, any_def, start_def, def_loop, def_bracket, def_member, def_name, parse_typeof,
  const_sequence, elements, parse_istring, format_parts, format_part,
}
use crack.Grammar.Interface.{Language}
use crack.Grammar.Kinds.{Begin, begin_of, After, after_of, Dotted, Part}
use crack.Grammar.Runs.{size, weight, Ends}
use crack.Prelude.{ℕ, ◌+◌, ◌*◌, ◌<◌, ◌≤◌, Bool, true, Option, List, ◌∷◌, ◌≡◌}
use crack.Token.{Token, TokenType}

pub record Below (L : Language) (f : ℕ) : Type 0 where
  pub expression-Ends :
      (n : ℕ) (p : ℕ) (ts : List Token) (s : L.Context)
      → 30 * (size ts) + 1 < f
      → size ts ≤ n
      → Ends n (expression L f p (ts, s))
  pub begin-Ends :
      (n : ℕ) (kind : Begin) (p : ℕ) (t : Token) (ts : List Token) (s : L.Context)
      → begin_of t.type ≡ kind
      → 30 * (weight t.type + size ts) + 0 < f
      → weight t.type + size ts ≤ n
      → Ends n (begin L f kind p t (ts, s))
  pub behind_primary-Ends :
      (n : ℕ) (p : ℕ) (o : Option L.Expr) (ident : Token) (ts : List Token) (s : L.Context)
      → 30 * (size ts) + 3 < f
      → size ts < n
      → Ends n (behind_primary L f p o ident (ts, s))
  pub secondary-Ends :
      (n : ℕ) (p : ℕ) (first : Bool) (ident : Token) (v : L.Expr) (ts : List Token) (s : L.Context)
      → 30 * (size ts) + 1 < f
      → size ts < n
      → Ends n (secondary L f p first ident v (ts, s))
  pub follow-Ends :
      (n : ℕ) (kind : After) (p : ℕ) (first : Bool) (ident : Token) (v : L.Expr) (t : Token)
      (ts : List Token) (s : L.Context)
      → after_of t.type ≡ kind
      → 30 * (weight t.type + size ts) + 0 < f
      → weight t.type + size ts < n
      → Ends n (follow L f kind p first ident v t (ts, s))
  pub follow_bracket-Ends :
      (n : ℕ) (T : Option L.TypeDef) (p : ℕ) (ident : Token) (v : L.Expr) (t : Token)
      (ts : List Token) (s : L.Context)
      → 30 * (size ts) + 12 < f
      → size ts < n
      → Ends n (follow_bracket L f T p ident v t (ts, s))
  pub follow_type-Ends :
      (n : ℕ) (called : Bool) (T : L.TypeDef) (p : ℕ) (ident t : Token) (ts : List Token)
      (s : L.Context)
      → 30 * (weight t.type + size ts) + 10 < f
      → weight t.type + size ts < n
      → Ends n (follow_type L f called T p ident t (ts, s))
  pub follow_bin-Ends :
      (n : ℕ) (ends : Bool) (level : ℕ) (p : ℕ) (ident : Token) (v : L.Expr) (t : Token)
      (ts : List Token) (s : L.Context)
      → 30 * (size ts) + 4 < f
      → weight t.type + size ts < n
      → Ends n (follow_bin L f ends level p ident v t (ts, s))
  pub follow_quest-Ends :
      (n : ℕ) (safe : Bool) (p : ℕ) (ident : Token) (v : L.Expr) (t t₂ : Token) (ts : List Token)
      (s : L.Context)
      → 30 * (weight t₂.type + size ts) + 12 < f
      → weight t.type + (weight t₂.type + size ts) < n
      → Ends n (follow_quest L f safe p ident v t t₂ (ts, s))
  pub follow_ternary-Ends :
      (n : ℕ) (ends : Bool) (p : ℕ) (ident : Token) (v : L.Expr) (t : Token) (ts : List Token)
      (s : L.Context)
      → 30 * (size ts) + 4 < f
      → weight t.type + size ts < n
      → Ends n (follow_ternary L f ends p ident v t (ts, s))
  pub follow_bang-Ends :
      (n : ℕ) (sugar : Bool) (p : ℕ) (ident : Token) (v : L.Expr) (t t₂ : Token) (ts : List Token)
      (s : L.Context)
      → 30 * (size ts) + 12 < f
      → weight t.type + size ts < n
      → Ends n (follow_bang L f sugar p ident v t t₂ (ts, s))
  pub follow_not_is-Ends :
      (n : ℕ) (ends : Bool) (level p : ℕ) (ident : Token) (v : L.Expr) (t t₂ : Token)
      (ts : List Token) (s : L.Context)
      → 30 * (size ts) + 4 < f
      → weight t.type + size ts < n
      → Ends n (follow_not_is L f ends level p ident v t t₂ (ts, s))
  pub parse_define-Ends :
      (n : ℕ) (ident : Token) (ts : List Token) (s : L.Context)
      → 30 * (size ts) + 2 < f
      → size ts < n
      → Ends n (parse_define L f ident (ts, s))
  pub index-Ends :
      (n : ℕ) (v : L.Expr) (t : Token) (ts : List Token) (s : L.Context)
      → 30 * (size ts) + 5 < f
      → size ts < n
      → Ends n (index L f v t (ts, s))
  pub index_value-Ends :
      (n : ℕ) (assigned : Bool) (args : List L.Expr) (v : L.Expr) (t t₂ : Token) (ts : List Token)
      (s : L.Context)
      → 30 * (size ts) + 2 < f
      → weight t₂.type + size ts < n
      → Ends n (index_value L f assigned args v t t₂ (ts, s))
  pub primary-Ends :
      (n : ℕ) (t : Token) (ts : List Token) (s : L.Context)
      → t.type ≡ TokenType.ident
      → 30 * size ts + 20 < f
      → size ts < n
      → Ends n (primary L f (t ∷ ts, s))
  pub start_primary-Ends :
      (n : ℕ) (is_typeof : Bool) (t : Token) (ts : List Token) (s : L.Context)
      → 30 * (size ts) + 15 < f
      → size ts < n
      → Ends n (start_primary L f is_typeof t (ts, s))
  pub name_primary-Ends :
      (n : ℕ) (def : Option L.Def) (t : Token) (ts : List Token) (s : L.Context)
      → 30 * (size ts) + 8 < f
      → size ts < n
      → Ends n (name_primary L f def t (ts, s))
  pub accessor_primary-Ends :
      (n : ℕ) (o : Option L.Expr) (t : Token) (ts : List Token) (s : L.Context)
      → 30 * (size ts) + 4 < f
      → size ts < n
      → Ends n (accessor_primary L f o t (ts, s))
  pub primary_loop-Ends :
      (n : ℕ) (v : L.Expr) (T : Option L.TypeDef) (ident : Token) (ts : List Token) (s : L.Context)
      → 30 * (size ts) + 1 < f
      → size ts < n
      → Ends n (primary_loop L f v T ident (ts, s))
  pub extend-Ends :
      (n : ℕ) (kind : After) (v : L.Expr) (T : Option L.TypeDef) (ident t : Token) (ts : List Token)
      (s : L.Context)
      → after_of t.type ≡ kind
      → 30 * (weight t.type + size ts) + 0 < f
      → weight t.type + size ts < n
      → Ends n (extend L f kind v T ident t (ts, s))
  pub extend_bracket-Ends :
      (n : ℕ) (generic : Option L.TypeDef) (v : L.Expr) (T : Option L.TypeDef) (t : Token)
      (ts : List Token) (s : L.Context)
      → 30 * (size ts) + 12 < f
      → size ts < n
      → Ends n (extend_bracket L f generic v T t (ts, s))
  pub extend_quest-Ends :
      (n : ℕ) (safe : Bool) (v : L.Expr) (T : Option L.TypeDef) (ident t t₂ : Token)
      (ts : List Token) (s : L.Context)
      → 30 * (size ts) + 12 < f
      → weight t.type + (weight t₂.type + size ts) < n
      → Ends n (extend_quest L f safe v T ident t t₂ (ts, s))
  pub post_dot-Ends :
      (n : ℕ) (v : L.Expr) (T : Option L.TypeDef) (safe : Bool) (ts : List Token) (s : L.Context)
      → 30 * (size ts) + 8 < f
      → size ts < n
      → Ends n (post_dot L f v T safe (ts, s))
  pub dotted-Ends :
      (n : ℕ) (kind : Dotted) (guard : Option L.Expr) (v : L.Expr) (T : Option L.TypeDef)
      (t : Token) (ts : List Token) (s : L.Context)
      → 30 * (size ts) + 7 < f
      → size ts < n
      → Ends n (dotted L f kind guard v T t (ts, s))
  pub method_args-Ends :
      (n : ℕ) (stop : TokenType) (ts : List Token) (s : L.Context)
      → 30 * (size ts) + 3 < f
      → size ts < n
      → Ends n (method_args L f stop (ts, s))
  pub args_from-Ends :
      (n : ℕ) (ends : Bool) (stop : TokenType) (t : Token) (ts : List Token) (s : L.Context)
      → 30 * (weight t.type + size ts) + 2 < f
      → weight t.type + size ts < n
      → Ends n (args_from L f ends stop t (ts, s))
  pub specializer-Ends :
      (n : ℕ) (t : Token) (T : L.TypeDef) (ts : List Token) (s : L.Context)
      → 30 * (size ts) + 6 < f
      → size ts < n
      → Ends n (specializer L f t T (ts, s))
  pub sub_types-Ends :
      (n : ℕ) (ts : List Token) (s : L.Context)
      → 30 * (size ts) + 5 < f
      → size ts < n
      → Ends n (sub_types L f (ts, s))
  pub more_types-Ends :
      (n : ℕ) (ends : Bool) (T : L.TypeDef) (t : Token) (ts : List Token) (s : L.Context)
      → 30 * (size ts) + 8 < f
      → size ts < n
      → Ends n (more_types L f ends T t (ts, s))
  pub type_spec-Ends :
      (n : ℕ) (ts : List Token) (s : L.Context)
      → 30 * (size ts) + 4 < f
      → size ts ≤ n
      → Ends n (type_spec L f (ts, s))
  pub any_def-Ends :
      (n : ℕ) (ts : List Token) (s : L.Context)
      → 30 * (size ts) + 3 < f
      → size ts ≤ n
      → Ends n (any_def L f (ts, s))
  pub start_def-Ends :
      (n : ℕ) (is_typeof : Bool) (t : Token) (ts : List Token) (s : L.Context)
      → (is_typeof ≡ true → weight t.type ≡ weight TokenType.typeof_kw)
      → 30 * (weight t.type + size ts) + 2 < f
      → weight t.type + size ts ≤ n
      → Ends n (start_def L f is_typeof t (ts, s))
  pub def_loop-Ends :
      (n : ℕ) (def : L.Def) (T : Option L.TypeDef) (ts : List Token) (s : L.Context)
      → 30 * (size ts) + 12 < f
      → size ts < n
      → Ends n (def_loop L f def T (ts, s))
  pub def_bracket-Ends :
      (n : ℕ) (special : Bool) (def : L.Def) (T : Option L.TypeDef) (t : Token) (ts : List Token)
      (s : L.Context)
      → 30 * (weight t.type + size ts) + 11 < f
      → weight t.type + size ts < n
      → Ends n (def_bracket L f special def T t (ts, s))
  pub def_member-Ends :
      (n : ℕ) (def : L.Def) (T : Option L.TypeDef) (ts : List Token) (s : L.Context)
      → 30 * (size ts) + 9 < f
      → size ts < n
      → Ends n (def_member L f def T (ts, s))
  pub def_name-Ends :
      (n : ℕ) (named : Bool) (def : L.Def) (T : Option L.TypeDef) (t : Token) (ts : List Token)
      (s : L.Context)
      → 30 * (size ts) + 8 < f
      → weight t.type + size ts < n
      → Ends n (def_name L f named def T t (ts, s))
  pub parse_typeof-Ends :
      (n : ℕ) (ts : List Token) (s : L.Context)
      → 30 * (size ts) + 2 < f
      → size ts < n
      → Ends n (parse_typeof L f (ts, s))
  pub const_sequence-Ends :
      (n : ℕ) (T : L.TypeDef) (ts : List Token) (s : L.Context)
      → 30 * (size ts) + 3 < f
      → size ts < n
      → Ends n (const_sequence L f T (ts, s))
  pub elements-Ends :
      (n : ℕ) (ends : Bool) (t : Token) (ts : List Token) (s : L.Context)
      → 30 * (weight t.type + size ts) + 2 < f
      → weight t.type + size ts < n
      → Ends n (elements L f ends t (ts, s))
  pub parse_istring-Ends :
      (n : ℕ) (v : L.Expr) (ts : List Token) (s : L.Context)
      → 30 * (size ts) + 4 < f
      → size ts < n
      → Ends n (parse_istring L f v (ts, s))
  pub format_parts-Ends :
      (n : ℕ) (reg : L.Expr) (ts : List Token) (s : L.Context)
      → 30 * (size ts) + 3 < f
      → size ts < n
      → Ends n (format_parts L f reg (ts, s))
  pub format_part-Ends :
      (n : ℕ) (kind : Part) (reg : L.Expr) (t : Token) (ts : List Token) (s : L.Context)
      → joined kind ≤ weight t.type
      → 30 * (weight t.type + size ts) + 2 < f
      → weight t.type + size ts < n
      → Ends n (format_part L f kind reg t (ts, s))
