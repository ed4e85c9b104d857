-- ===== src/Grammar/Consumed.antt =====
-- What the tokens that go on are: the types behind the kinds, and reading a token that was put back.
use crack.Grammar.{skip, get_token}
use crack.Grammar.Interface.{Language}
use crack.Grammar.Kinds.{Begin, begin_of, After, after_of, Part, part_of}
use crack.Grammar.Kinds.{start_name, start_text, no_start, take_member, leave, no_part, part_end}
use crack.Grammar.Members.{scoping}
use crack.Grammar.Reading.{behind_scope-Ends}
use crack.Grammar.Runs.{weight, size, Ends}
use crack.Prelude.{ℕ, zero, suc, ◌<◌, ◌≤◌, Bool, true, false, none, List, ◌∷◌, ok, arith, ◌≡◌, refl}
use crack.Token.{Token, TokenType, ◌is◌, type_code}

-- What a kind that goes on takes of the tokens.
unfoldable pub taken : After → ℕ
taken leave = 0
taken _ = 1

unfoldable pub begun : Begin → ℕ
begun no_start = 0
begun _ = 1

taken-after : (u : TokenType) → taken (after_of u) ≤ weight u
unfolding taken after_of weight
taken-after TokenType.end = omega arith
taken-after _ = omega arith

begun-begin : (u : TokenType) → begun (begin_of u) ≤ weight u
unfolding begun begin_of weight
begun-begin TokenType.end = omega arith
begun-begin _ = omega arith

pub goes_on : (u : TokenType) (kind : After) → after_of u ≡ kind → taken kind ≤ weight u
goes_on u kind h = rw⁻¹ h (taken-after u)

pub opens : (u : TokenType) (kind : Begin) → begin_of u ≡ kind → begun kind ≤ weight u
opens u kind h = rw⁻¹ h (begun-begin u)

pub after-scoping : (u : TokenType) → after_of u ≡ take_member → u ≡ TokenType.scoping
unfolding after_of
after-scoping TokenType.scoping h = refl
after-scoping _ h = cc

pub begin-name : (u : TokenType) → begin_of u ≡ start_name → u ≡ TokenType.ident
unfolding begin_of
begin-name TokenType.ident h = refl
begin-name _ h = cc

pub begin-text : (u : TokenType) → begin_of u ≡ start_text → u ≡ TokenType.string
unfolding begin_of
begin-text TokenType.string h = refl
begin-text _ h = cc

unfoldable pub joined : Part → ℕ
joined part_end = 0
joined no_part = 0
joined _ = 1

pub joined-part : (u : TokenType) (empty : Bool) → joined (part_of u empty) ≤ weight u
unfolding joined part_of weight
joined-part TokenType.end empty = omega arith
joined-part TokenType.string true = omega arith
joined-part TokenType.string false = omega arith
joined-part _ empty = omega arith

module _ (L : Language) where
  -- A token that is no doc and no end of an error context is read at once.
  pub get_token-plain :
      (t : Token) (ts : List Token) (s : L.Context)
      → (t.type is TokenType.doc) ≡ false
      → (t.type is TokenType.pop_err_ctx) ≡ false
      → get_token L (t ∷ ts, s) ≡ ok (t, (ts, L.set_location t.loc s))
  unfolding get_token skip
  get_token-plain t ts s h k = rw (h, k) refl

  pub get_token-typed :
      (t : Token) (u : TokenType) (ts : List Token) (s : L.Context)
      → t.type ≡ u
      → (u is TokenType.doc) ≡ false
      → (u is TokenType.pop_err_ctx) ≡ false
      → get_token L (t ∷ ts, s) ≡ ok (t, (ts, L.set_location t.loc s))
  get_token-typed t u ts s e h k = get_token-plain t ts s (rw e h) (rw e k)

  -- A scoping operator that was put back is taken again, with what follows it.
  pub scoping-again :
      (f n : ℕ) (ns : L.Namespace) (t : Token) (ts : List Token) (s : L.Context)
      → t.type ≡ TokenType.scoping
      → suc (size ts) < f
      → size ts < n
      → Ends n (scoping L f ns none (t ∷ ts, s))
  unfolding scoping type_code
  scoping-again zero n ns t ts s e h k = absurd (omega arith)
  scoping-again (suc f) n ns t ts s e h k =
      rw (get_token-typed t TokenType.scoping ts s e refl refl, e)
        (behind_scope-Ends L f n ns ts _ (omega arith) k)
