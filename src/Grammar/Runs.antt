-- ===== src/Grammar/Runs.antt =====
-- Runs of the parser that end, with the number of tokens still to come, and rules for its monad.
use crack.Grammar.{Parse, acted, bind, skip, place, first_loc, get_token, or_fail, require}
use crack.Grammar.Interface.{Language, Acted, done, refused}
use crack.Location.{Location}
use crack.Prelude.{
  ℕ, ◌+◌, ◌≤◌, ◌<◌, Bool, true, false, if◌then◌else◌, if-case, Option, some, none, List, [], ◌∷◌,
  Bytes, Outcome, ok, parse_error, fault, Fault, out_of_fuel, ◌≢◌, ◌≡◌, refl, arith,
}
use crack.Token.{Token, TokenType, ◌is◌}

-- The end token, which the toker gives as often as it is asked, does not count.
unfoldable pub weight : TokenType → ℕ
weight TokenType.end = 0
weight _ = 1

unfoldable pub size : List Token → ℕ
unfolding weight
size [] = 0
size (t ∷ ts) = weight t.type + size ts

module _ {S A : Type 0} where
  -- The run kept within its fuel, and fewer than `n` tokens are to come if it gave a result.
  pub data Ends (n : ℕ) : Outcome (A × (List Token × S)) → Type 0 where
    left : {a : A} {ts : List Token} {s : S} → size ts < n → Ends n (ok (a, (ts, s)))
    stopped : {l : Location} {msg : Bytes} → Ends n (parse_error l msg)
    faulted : {e : Fault} → e ≢ out_of_fuel → Ends n (fault e)

  pub Ends-weaken : {m n : ℕ} {o : Outcome (A × (List Token × S))} → m ≤ n → Ends m o → Ends n o
  Ends-weaken h (left k) = left (omega arith)
  Ends-weaken h stopped = stopped
  Ends-weaken h (faulted k) = faulted k

  pub Ends-act : {n : ℕ} (ts : List Token) (r : Acted S A) → size ts < n → Ends n (acted ts r)
  unfolding acted
  Ends-act ts (done a s') h = left h
  Ends-act ts (refused l msg) h = stopped

  pub Ends-if :
      {n : ℕ} (b : Bool) {x y : Outcome (A × (List Token × S))}
      → (b ≡ true → Ends n x)
      → (b ≡ false → Ends n y)
      → Ends n (if b then x else y)
  Ends-if true h k = h refl
  Ends-if false h k = k refl

  pub Ends-branch :
      {n : ℕ} (b : Bool) (p q : Parse S A) (st : List Token × S)
      → (b ≡ true → Ends n (p st))
      → (b ≡ false → Ends n (q st))
      → Ends n ((if b then p else q) st)
  Ends-branch true p q st h k = h refl
  Ends-branch false p q st h k = k refl

-- The rules of the monad take what comes after as their first argument.
module _ {S A B : Type 0} (f : A × (List Token × S) → Outcome (B × (List Token × S))) where
  pub Ends-bind :
      {k n : ℕ} {o : Outcome (A × (List Token × S))}
      → Ends k o
      → ((a : A) (ts : List Token) (s : S) → size ts < k → Ends n (f (a, (ts, s))))
      → Ends n (bind o f)
  Ends-bind (left h) r = r _ _ _ h
  Ends-bind stopped r = stopped
  Ends-bind (faulted h) r = faulted h

  pub then_act :
      {n : ℕ} (ts : List Token) (r : Acted S A)
      → ((a : A) (s : S) → Ends n (f (a, (ts, s))))
      → Ends n (bind (acted ts r) f)
  unfolding acted
  then_act ts (done a s') h = h a s'
  then_act ts (refused l msg) h = stopped

  pub then_or_fail :
      {n : ℕ} (o : Option A) (other : Parse S A) (st : List Token × S)
      → Ends 0 (other st)
      → ((a : A) → Ends n (f (a, st)))
      → Ends n (bind (or_fail o other st) f)
  unfolding or_fail
  then_or_fail (some a) other st h r = r a
  then_or_fail none other st h r = Ends-bind h λ a ts s less. absurd (omega arith)

module _ (L : Language) where
  abbrev Fits : ℕ → Token × (List Token × L.Context) → Type 0
  Fits n r = weight r.0.type + size r.1.0 ≤ n

  Fits-skip : (again : Bool) (ts : List Token) (s : L.Context) → Fits (size ts) (skip L again ts s)
  unfolding skip size weight
  Fits-skip again [] s = omega arith
  Fits-skip again (t ∷ ts) s =
      let after_doc = Fits-skip again ts (L.add_doc t.text s) in
      let after_end = Fits-skip true ts (L.pop_error_context (place L again t s)) in
      if-case (Fits (size (t ∷ ts))) (t.type is TokenType.doc) _ _ (λ _. omega arith)
        λ _.
          if-case (Fits (size (t ∷ ts))) (t.type is TokenType.pop_err_ctx) _ _ (λ _. omega arith)
            λ _. omega arith

  pub then_token :
      {B : Type 0} (f : Token × (List Token × L.Context) → Outcome (B × (List Token × L.Context)))
      {n : ℕ} (ts : List Token) (s : L.Context)
      → ((t : Token) (ts' : List Token) (s' : L.Context)
          → weight t.type + size ts' ≤ size ts
          → Ends n (f (t, (ts', s'))))
      → Ends n (bind (get_token L (ts, s)) f)
  unfolding get_token
  then_token f ts s h =
      let s' : L.Context = L.set_location (first_loc ts) s in h _ _ _ (Fits-skip false ts s')

-- A parser that gives no token back: what bounds the tokens before it bounds them after it.
abbrev pub Keeps : {S A : Type 0} → Parse S A → Type 0
Keeps p = (n : ℕ) (ts : List Token) (s : _) → size ts < n → Ends n (p (ts, s))

pub then_require :
    {S B : Type 0} (f : Unit {0} × (List Token × S) → Outcome (B × (List Token × S))) {n : ℕ}
    (b : Bool) (other : Parse S (Unit {0})) (st : List Token × S)
    → Ends 0 (other st)
    → (b ≡ true → Ends n (f (tt, st)))
    → Ends n (bind (require b other st) f)
unfolding require
then_require f true other st h r = r refl
then_require f false other st h r = Ends-bind f h λ a ts s less. absurd (omega arith)
