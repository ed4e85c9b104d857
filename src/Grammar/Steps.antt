-- ===== src/Grammar/Steps.antt =====
-- Single steps of parseExpression over the trees of Trees, each with what it goes on to.
use crack.Grammar.{bind, get_token, skip, acted, or_fail, require, fail, end_token, unexpected}
use crack.Grammar.Consumed.{get_token-plain}
use crack.Grammar.Descent.{
  expression, begin, behind_primary, secondary, follow, follow_bin, primary, start_primary,
  name_primary, primary_loop, extend,
}
use crack.Grammar.Kinds.{
  Begin, After, begin_of, after_of, find_precedence, take_bin, leave, start_prefix, start_name,
}
use crack.Grammar.Operators.{get_precedence, bin_call, op_call, fold_call, look_up_bin_op, weight}
use crack.Grammar.Rounds.{bump_suffix, defined}
use crack.Grammar.Trees.{Built, named, unary, binary, trees, open_paren, close_paren, IsPlain}
use crack.Prelude.{
  ℕ, suc, leb, Bool, true, false, some, none, List, ◌∷◌, ◌++◌, Bytes, codes, Outcome, ok, assertion,
  ◌≡◌, refl, ap, ◌∙◌, ◌⊎◌, inl, inr,
}
use crack.Token.{Token, TokenType, type_code, ◌is◌}

abbrev pub State : Type 0
State = List Token × Unit {0}

abbrev pub Answer : Type 0
Answer = Outcome (Built × State)

pub read :
    (t : Token) (us : List Token) → IsPlain t → get_token trees (t ∷ us, tt) ≡ ok (t, (us, tt))
read t us plain = get_token-plain trees t us tt plain.no_doc plain.no_end

pub known_level :
    (op : Bytes) (q : ℕ) (st : State)
    → find_precedence op ≡ some q
    → get_precedence trees op st ≡ ok (q, st)
unfolding get_precedence or_fail
known_level op q st h = ap (λ o. or_fail o (fail assertion) st) h

pub bin_call-trees :
    (t : Token) (a b : Built) (st : State)
    → bin_call trees t a b st ≡ ok (binary (codes "oper " ++ t.text) a b, st)
unfolding bin_call look_up_bin_op weight acted or_fail
bin_call-trees t a b st = refl

pub op_call-trees :
    (symbol shown : Bytes) (t : Token) (a : Built) (st : State)
    → op_call trees symbol shown t a st ≡ ok (unary symbol a, st)
unfolding op_call acted or_fail
op_call-trees symbol shown t a st = refl

pub fold_call-trees : (a : Built) (st : State) → fold_call trees a st ≡ ok (a, st)
unfolding fold_call or_fail
fold_call-trees a st = refl

pub secondary_lem :
    (f p : ℕ) (first : Bool) (ident : Token) (e : Built) (t : Token) (us : List Token)
    (kind : After)
    → IsPlain t
    → after_of t.type ≡ kind
    → secondary trees (suc f) p first ident e (t ∷ us, tt)
      ≡ follow trees f kind p first ident e t (us, tt)
unfolding secondary
secondary_lem f p first ident e t us kind plain h =
    ap (λ r. bind r λ (u, st). follow trees f (after_of u.type) p first ident e u st)
      (read t us plain)
    ∙ ap (λ k. follow trees f k p first ident e t (us, tt)) h

pub follow-leave :
    (f p : ℕ) (first : Bool) (ident : Token) (e : Built) (t : Token) (us : List Token)
    → follow trees (suc f) leave p first ident e t (us, tt) ≡ ok (e, (t ∷ us, tt))
unfolding follow
follow-leave f p first ident e t us = refl

pub follow-take_bin :
    (f p q : ℕ) (first : Bool) (ident : Token) (e : Built) (t : Token) (st : State)
    → find_precedence t.text ≡ some q
    → follow trees (suc f) take_bin p first ident e t st
      ≡ follow_bin trees f (leb q p) q p ident e t st
unfolding follow
follow-take_bin f p q first ident e t st h =
    ap (λ r. bind r λ (level, st'). follow_bin trees f (leb level p) level p ident e t st')
      (known_level t.text q st h)

pub follow_bin-true :
    (f p q : ℕ) (ident : Token) (e : Built) (t : Token) (us : List Token)
    → follow_bin trees (suc f) true q p ident e t (us, tt) ≡ ok (e, (t ∷ us, tt))
unfolding follow_bin
follow_bin-true f p q ident e t us = refl

pub follow_bin-false :
    (f p q : ℕ) (ident : Token) (e rhs : Built) (t : Token) (st st' : State)
    → expression trees f q st ≡ ok (rhs, st')
    → follow_bin trees (suc f) false q p ident e t st
      ≡ secondary trees f p false ident (binary (codes "oper " ++ t.text) e rhs) st'
unfolding follow_bin
follow_bin-false f p q ident e rhs t st st' h =
    ap
      (λ r.
        bind r
          λ (b, u). bind (bin_call trees t e b u) λ (c, v). secondary trees f p false ident c v)
      h
    ∙ ap (λ r. bind r λ (c, v). secondary trees f p false ident c v) (bin_call-trees t e rhs st')

expression_lem :
    (f p : ℕ) (t : Token) (us : List Token) (kind : Begin)
    → IsPlain t
    → begin_of t.type ≡ kind
    → expression trees (suc f) p (t ∷ us, tt) ≡ begin trees f kind p t (us, tt)
unfolding expression
expression_lem f p t us kind plain h =
    ap (λ r. bind r λ (u, st). begin trees f (begin_of u.type) p u st) (read t us plain)
    ∙ ap (λ k. begin trees f k p t (us, tt)) h

-- An expression in parentheses.
pub paren_lem :
    (f p : ℕ) (e : Built) (ts us : List Token)
    → expression trees f 0 (ts, tt) ≡ ok (e, (close_paren ∷ us, tt))
    → expression trees (suc (suc f)) p (open_paren ∷ ts, tt)
      ≡ secondary trees f p true end_token e (us, tt)
unfolding expression get_token skip begin_of type_code require
paren_lem f p e ts us h =
    ap
      (λ r. bind r λ (e', st). bind (get_token trees st) λ (t₂, st').
        bind
          (require (t₂.type is TokenType.rparen) (unexpected t₂ (codes "expected a right paren"))
            st')
          λ (_, st''). secondary trees f p true end_token e' st'')
      h

-- A prefix operator, whose operand is read at its level.
pub sign_lem :
    (f p : ℕ) (x : Built) (t : Token) (ts : List Token) (st : State)
    → IsPlain t
    → begin_of t.type ≡ start_prefix
    → find_precedence (t.text ++ codes "x") ≡ some 10
    → expression trees f 10 (ts, tt) ≡ ok (x, st)
    → expression trees (suc (suc f)) p (t ∷ ts, tt)
      ≡ secondary trees f p true end_token (unary (codes "oper " ++ (t.text ++ bump_suffix t)) x) st
unfolding begin
sign_lem f p x t ts st plain h k read_operand =
    let symbol : Bytes = codes "oper " ++ (t.text ++ bump_suffix t) in
    let goes_on = λ (r : Answer). bind r λ (c, v). secondary trees f p true end_token c v in
    let folds = λ (r : Answer). bind r λ (c, v). goes_on (fold_call trees c v) in
    let calls = λ (r : Answer). bind r λ (x', v). folds (op_call trees symbol symbol t x' v) in
    expression_lem (suc f) p t ts start_prefix plain h
    ∙ (ap (λ r. bind r λ (level, v). calls (expression trees f level v))
          (known_level (t.text ++ codes "x") 10 (ts, tt) k)
        ∙ (ap calls read_operand
            ∙ (ap folds (op_call-trees symbol symbol t x st)
                ∙ ap goes_on (fold_call-trees (unary symbol x) st))))

-- A token behind which a name is not extended: one that ends the expression or an operator.
pub data Next (u : Token) : Type 0 where
  next :
      {kind : After}
      → IsPlain u
      → after_of u.type ≡ kind
      → (kind ≡ leave) ⊎ (kind ≡ take_bin)
      → Next u

not_define :
    (u : TokenType) (kind : After)
    → after_of u ≡ kind
    → (kind ≡ leave) ⊎ (kind ≡ take_bin)
    → (u is TokenType.define) ≡ false
unfolding after_of type_code
not_define TokenType.define kind h (inl k) = cc
not_define TokenType.define kind h (inr k) = cc
not_define _ kind h k = refl

defined-trees :
    (t u : Token) (us : List Token)
    → IsPlain u
    → (u.type is TokenType.define) ≡ false
    → defined trees t (u ∷ us, tt) ≡ ok (some t.text, (u ∷ us, tt))
unfolding acted
defined-trees t u us plain h = rw (read u us plain, h) refl

extend_lem :
    (f : ℕ) (kind : After) (v : Built) (t u : Token) (us : List Token)
    → (kind ≡ leave) ⊎ (kind ≡ take_bin)
    → extend trees (suc f) kind v none t u (us, tt) ≡ ok ((some v, t), (u ∷ us, tt))
unfolding extend
extend_lem f kind v t u us (inl k) = ap (λ c. extend trees (suc f) c v none t u (us, tt)) k
extend_lem f kind v t u us (inr k) = ap (λ c. extend trees (suc f) c v none t u (us, tt)) k

loop_lem :
    (f : ℕ) (v : Built) (t u : Token) (us : List Token)
    → Next u
    → primary_loop trees (suc (suc f)) v none t (u ∷ us, tt) ≡ ok ((some v, t), (u ∷ us, tt))
unfolding primary_loop
loop_lem f v t u us (next {kind} plain h k) =
    ap (λ r. bind r λ (u', st). extend trees (suc f) (after_of u'.type) v none t u' st)
      (read u us plain)
    ∙ (ap (λ c. extend trees (suc f) c v none t u (us, tt)) h ∙ extend_lem f kind v t u us k)

start_primary_lem :
    (f : ℕ) (t u : Token) (us : List Token)
    → Next u
    → start_primary trees (suc (suc (suc (suc f)))) false t (u ∷ us, tt)
      ≡ ok ((some (named t.text), t), (u ∷ us, tt))
unfolding start_primary acted
start_primary_lem f t u us (next {kind} plain h k) =
    ap (λ r. bind r λ (d, st). name_primary trees (suc (suc (suc f))) d t st)
      (defined-trees t u us plain (not_define u.type kind h k))
    ∙ loop_lem f (named t.text) t u us (next plain h k)

primary_lem :
    (f : ℕ) (t u : Token) (us : List Token)
    → IsPlain t
    → t.type ≡ TokenType.ident
    → Next u
    → primary trees (suc (suc (suc (suc (suc f))))) (t ∷ u ∷ us, tt)
      ≡ ok ((some (named t.text), t), (u ∷ us, tt))
unfolding primary type_code
primary_lem f t u us plain h follows =
    let tail = λ (b : Bool). start_primary trees (suc (suc (suc (suc f)))) b t (u ∷ us, tt) in
    ap
      (λ r. bind r λ (t', st).
        start_primary trees (suc (suc (suc (suc f)))) (t'.type is TokenType.typeof_kw) t' st)
      (read t (u ∷ us) plain)
    ∙ (ap (λ ty. tail (ty is TokenType.typeof_kw)) h ∙ start_primary_lem f t u us follows)

ident-IsPlain : (t : Token) → t.type ≡ TokenType.ident → IsPlain t
unfolding type_code
ident-IsPlain t h = record { no_doc = rw h refl; no_end = rw h refl }

ident-begin : (t : Token) → t.type ≡ TokenType.ident → begin_of t.type ≡ start_name
unfolding begin_of
ident-begin t h = rw h refl

-- A name, in front of a token behind which it is not extended.
pub name_lem :
    (f p : ℕ) (t u : Token) (us : List Token)
    → t.type ≡ TokenType.ident
    → Next u
    → expression trees (suc (suc (suc (suc (suc (suc (suc f))))))) p (t ∷ u ∷ us, tt)
      ≡ secondary trees (suc (suc (suc (suc f)))) p true t (named t.text) (u ∷ us, tt)
unfolding begin
name_lem f p t u us h follows =
    expression_lem (suc (suc (suc (suc (suc (suc f)))))) p t (u ∷ us) start_name (ident-IsPlain t h)
      (ident-begin t h)
    ∙ ap (λ r. bind r λ (e, st). behind_primary trees (suc (suc (suc (suc (suc f))))) p e.0 e.1 st)
        (primary_lem f t u us (ident-IsPlain t h) h follows)
