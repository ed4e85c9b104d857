-- ===== src/Grammar/RoundTrip.antt =====
-- parseExpression (parser/Parser.cc) on printed trees of operators.
use mathlib.Core.Path.{subst}
use crack.Grammar.{end_token}
use crack.Grammar.Descent.{expression, secondary, follow_bin}
use crack.Grammar.Kinds.{after_of, find_precedence, take_bin, leave}
use crack.Grammar.Steps.{
  Answer, secondary_lem, follow-leave, follow-take_bin, follow_bin-true, follow_bin-false,
  paren_lem, sign_lem, name_lem, Next, next,
}
use crack.Grammar.Trees.{
  Built, binary, trees, Tree, name, sign, link, level, open_paren, close_paren, wrap, print, build,
  IsPlain, IsWell, well_name, well_sign, well_link, Stop, ended, weaker,
}
use crack.Prelude.{
  ℕ, zero, suc, ◌+◌, ◌-◌, ◌<◌, ◌≤◌, leb, ltb, Bool, true, false, List, ◌∷◌, ok, ◌≡◌, refl, ap, ◌∙◌,
  inl, inr, ◌++◌, codes, some, arith,
}
use crack.Token.{Token, type_code}

-- With more than `n` fuel, parseSecondary goes on from `e` to the answer.
abbrev Loops : ℕ → Built → Token → List Token → Answer → ℕ → Type 0
Loops p e u us answer n =
    (g : ℕ) (first : Bool) (ident : Token)
    → n < g
    → secondary trees g p first ident e (u ∷ us, tt) ≡ answer

-- The fuel for a tree.
unfoldable pub cost : Tree → ℕ
cost (name t) = 12
cost (sign t x) = 60 + cost x
cost (link t l x y) = 80 + (cost x + cost y)

-- Reading a tree at precedence `p` in front of a token at which it stops.
abbrev Parses : Tree → Type 0
Parses x =
    (p : ℕ) (u : Token) (us : List Token) (answer : Answer) (n : ℕ)
    → (level x < 10 → p < level x)
    → Stop (level x) u
    → Loops p (build x) u us answer n
    → (f : ℕ) → cost x + n < f
    → expression trees f p (print x (u ∷ us), tt) ≡ answer

-- A number of calls more.
abbrev calls : ℕ → ℕ → ℕ
calls zero f = f
calls (suc n) f = suc (calls n f)

-- Fuel above twelve is twelve more than some.
spend : (n : ℕ) (P : ℕ → Type 0) → ((g : ℕ) → n < g → P (calls 12 g)) → (f : ℕ) → 12 + n < f → P f
spend n P k f h = subst P (omega arith) (k (f - 12) (omega arith))

Stop-weaken : {l m : ℕ} {u : Token} → l ≤ m → Stop l u → Stop m u
Stop-weaken less (ended plain h) = ended plain h
Stop-weaken less (weaker plain h k le) = weaker plain h k (omega arith)

Stop-Next : {l : ℕ} {u : Token} → Stop l u → Next u
Stop-Next (ended plain h) = next plain h (inl refl)
Stop-Next (weaker plain h k le) = next plain h (inr refl)

Stop-Loops :
    (p : ℕ) (e : Built) (u : Token) (us : List Token)
    → Stop p u
    → Loops p e u us (ok (e, (u ∷ us, tt))) 12
Stop-Loops p e u us (ended plain h) g first ident =
    spend 0 (λ g. secondary trees g p first ident e (u ∷ us, tt) ≡ ok (e, (u ∷ us, tt)))
      (λ f _.
        secondary_lem (calls 11 f) p first ident e u us leave plain h
        ∙ follow-leave (calls 10 f) p first ident e u us)
      g
Stop-Loops p e u us (weaker {q} plain h k le) g first ident =
    let stops : leb q p ≡ true = ground arith in
    spend 0 (λ g. secondary trees g p first ident e (u ∷ us, tt) ≡ ok (e, (u ∷ us, tt)))
      (λ f _.
        secondary_lem (calls 11 f) p first ident e u us take_bin plain h
        ∙ (follow-take_bin (calls 10 f) p q first ident e u (us, tt) k
            ∙ (ap (λ b. follow_bin trees (calls 10 f) b q p ident e u (us, tt)) stops
                ∙ follow_bin-true (calls 9 f) p q ident e u us)))
      g

close-Stop : (l : ℕ) → Stop l close_paren
unfolding after_of type_code
close-Stop l = ended (record { no_doc = refl; no_end = refl }) refl

-- The same of a tree that may stand in parentheses.
wrapped :
    (x : Tree) (b : Bool) (p : ℕ) (u : Token) (us : List Token) (answer : Answer) (n : ℕ)
    → Parses x
    → 0 < level x
    → (b ≡ false → level x < 10 → p < level x)
    → (b ≡ false → Stop (level x) u)
    → Loops p (build x) u us answer n
    → (f : ℕ) → 24 + (cost x + n) < f
    → expression trees f p (wrap b (print x) (u ∷ us), tt) ≡ answer
wrapped x true p u us answer n parses positive fits stop loops f h =
    spend (12 + (cost x + n))
      (λ g. expression trees g p (open_paren ∷ print x (close_paren ∷ u ∷ us), tt) ≡ answer)
      (λ g less.
        paren_lem (calls 10 g) p (build x) (print x (close_paren ∷ u ∷ us)) (u ∷ us) (
          parses 0 close_paren (u ∷ us) (ok (build x, (close_paren ∷ u ∷ us, tt))) 12
            (λ _. positive) (close-Stop (level x))
            (Stop-Loops 0 (build x) close_paren (u ∷ us) (close-Stop 0)) (calls 10 g) (omega arith))
        ∙ loops (calls 10 g) true end_token (omega arith))
      f (omega arith)
wrapped x false p u us answer n parses positive fits stop loops f h =
    parses p u us answer n (fits refl) (stop refl) loops f (omega arith)

level_pos : (x : Tree) → IsWell x → 0 < level x
unfolding level
level_pos (name t) w = omega arith
level_pos (sign t x) w = omega arith
level_pos (link t l x y) (well_link plain h k positive below wx wy) = positive

-- The rest of a binary operator: its right operand is read at its level, then the loop goes on.
link-Loops :
    (t : Token) (l : ℕ) (v : Built) (y : Tree) (p : ℕ) (u : Token) (us : List Token)
    (answer : Answer) (n : ℕ)
    → IsPlain t
    → after_of t.type ≡ take_bin
    → find_precedence t.text ≡ some l
    → p < l
    → 0 < level y
    → Parses y
    → Stop l u
    → Loops p (binary (codes "oper " ++ t.text) v (build y)) u us answer n
    → Loops p v t (wrap (leb (level y) l) (print y) (u ∷ us)) answer (12 + (40 + (cost y + n)))
link-Loops t l v y p u us answer n plain h k less positive parses stop loops g first ident =
    let rest : List Token = wrap (leb (level y) l) (print y) (u ∷ us) in
    let goes_on : leb l p ≡ false = ground arith in
    spend (40 + (cost y + n)) (λ g. secondary trees g p first ident v (t ∷ rest, tt) ≡ answer)
      (λ g enough.
        let right =
          wrapped y (leb (level y) l) l u us (ok (build y, (u ∷ us, tt))) 12 parses positive
            (λ b _. ground arith) (λ b. Stop-weaken (ground arith) stop)
            (Stop-Loops l (build y) u us stop) (calls 9 g) (omega arith) in
        secondary_lem (calls 11 g) p first ident v t rest take_bin plain h
        ∙ (follow-take_bin (calls 10 g) p l first ident v t (rest, tt) k
            ∙ (ap (λ b. follow_bin trees (calls 10 g) b l p ident v t (rest, tt)) goes_on
                ∙ (follow_bin-false (calls 9 g) p l ident v (build y) t (rest, tt) (u ∷ us, tt)
                      right
                    ∙ loops (calls 9 g) false ident (omega arith)))))
      g

parses : (x : Tree) → IsWell x → Parses x
unfolding print build level cost
parses (name t) (well_name h) p u us answer n fits stop loops f enough =
    spend n (λ g. expression trees g p (t ∷ u ∷ us, tt) ≡ answer)
      (λ g less.
        name_lem (calls 5 g) p t u us h (Stop-Next stop) ∙ loops (calls 9 g) true t (omega arith))
      f enough
parses (sign t x) (well_sign plain h k w) p u us answer n fits stop loops f enough =
    spend (48 + (cost x + n))
      (λ g. expression trees g p (t ∷ wrap (ltb (level x) 10) (print x) (u ∷ us), tt) ≡ answer)
      (λ g less.
        sign_lem (calls 10 g) p (build x) t _ (u ∷ us, tt) plain h k
          (wrapped x (ltb (level x) 10) 10 u us (ok (build x, (u ∷ us, tt))) 12 (parses x w)
            (level_pos x w) (λ b under. absurd (ground arith))
            (λ b. Stop-weaken (ground arith) stop) (Stop-Loops 10 (build x) u us stop) (calls 10 g)
            (omega arith))
        ∙ loops (calls 10 g) true end_token (omega arith))
      f (omega arith)
parses (link t l x y) (well_link plain h k positive below wx wy) p u us answer n fits stop loops f
      enough =
    wrapped x (ltb (level x) l) p t (wrap (leb (level y) l) (print y) (u ∷ us)) answer
      (12 + (40 + (cost y + n))) (parses x wx) (level_pos x wx)
      (λ b under. let less = fits below in ground arith) (λ b. weaker plain h k (ground arith))
      (link-Loops t l (build x) y p u us answer n plain h k (fits below) (level_pos y wy)
        (parses y wy) stop loops)
      f (omega arith)
