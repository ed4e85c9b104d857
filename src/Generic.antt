-- ===== src/Generic.antt =====
-- Generic::addToken and Generic::replay (model/Generic.h, lines 48 to 51, and model/Generic.cc, lines
-- 73 to 77): the body of a generic, fed to a tokenizer again.
pub mod Write
pub mod Read
pub mod Tokens
pub mod Stored
pub mod Body
pub mod RoundTrip
pub mod Columns
use crack.Prelude.{ℕ, zero, suc, List, [], ◌∷◌, ◌++◌, Outcome, ok, ◌>>=◌, ◌≡◌, refl, ◌∙◌, ap}
use crack.Prelude.Lists.{length}
use crack.Token.{Token}
use crack.Toker.State.{Toker, State}
use crack.Toker.Get.{get_token, get_in, put_back, state_after}

unfoldable pub add_token : List Token → Token → List Token
add_token body tok = body ++ tok ∷ []

-- `putBack(body[i])` from the last token to the first.
unfoldable pub replay : List Token → Toker → Toker
unfolding put_back
replay [] tk = tk
replay (t ∷ body) tk = put_back (replay body tk) t

-- `n` calls of getToken.
unfoldable pub get_tokens : ℕ → Toker → Outcome (Toker × List Token)
get_tokens zero tk = ok (tk, [])
get_tokens (suc n) tk = do (tk', t) ← get_token tk; (last, ts) ← get_tokens n tk'; ok (last, t ∷ ts)

-- The state that a list of put-back tokens leaves.
unfoldable pub state_through : State → List Token → State
state_through st [] = st
state_through st (t ∷ ts) = state_through (state_after st t) ts

replay-tokens :
    (body : List Token) (tk : Toker) → replay body tk ≡ record tk { tokens = body ++ tk.tokens }
unfolding replay put_back
replay-tokens [] tk = refl
replay-tokens (t ∷ body) tk = ap (λ k. put_back k t) (replay-tokens body tk)

get_tokens-put_back :
    (body more : List Token) (tk : Toker)
    → get_tokens (length body) (record tk { tokens = body ++ more })
      ≡ ok (record tk { tokens = more; state = state_through tk.state body }, body)
unfolding get_tokens state_through get_token get_in
get_tokens-put_back [] more tk = refl
get_tokens-put_back (t ∷ body) more tk =
    rw (get_tokens-put_back body more (record tk { state = state_after tk.state t })) refl

-- After a replay of a body, as many calls of getToken as it has tokens return them in their order;
-- they read no character and raise no error, what was put back before is next, and the lexical state
-- is the one that the body's i-string tokens lead to.
pub get_tokens-replay :
    (body : List Token) (tk : Toker)
    → get_tokens (length body) (replay body tk)
      ≡ ok (record tk { state = state_through tk.state body }, body)
get_tokens-replay body tk =
    ap (get_tokens (length body)) (replay-tokens body tk) ∙ get_tokens-put_back body tk.tokens tk
