-- ===== src/Toker/Lexes.antt =====
-- How readToken's loop runs over a text that is known.
pub mod Faults
pub mod Words
use crack.Prelude.{
  ℕ, zero, suc, ◌+◌, ◌-◌, ◌≤◌, ◌<◌, ◌≡◌, inl, inr, refl, sym, ap, ◌∙◌, Bytes, [], ◌∷◌, ◌++◌, arith,
  length, Outcome, ok, fault, Fault, some, none,
}
use crack.Token.{TokenType, Token}
use crack.Toker.Read.{read_loop, read_token, round, may_read, enough}
use crack.Toker.Safety.Took.{Took, get_char_cases}
use crack.Toker.Safety.{pending}
use crack.Toker.Scan.{Scan, Step, more, token, fresh}
use crack.Toker.State.{Toker, State, left, st_none}
use crack.Toker.Step.{step, step_in}
use mathlib.Core.Path.{subst}

-- The first character of the text that is left.
pub record Taken (tk : Toker) (c : ℕ) (rest : Bytes) : Type 0 where
  pub next : Toker
  pub took : Took tk c next
  pub rest_is : pending next ≡ rest

pub take : (tk : Toker) (c : ℕ) (rest : Bytes) → pending tk ≡ c ∷ rest → Taken tk c rest
take tk c rest e = elim (get_char_cases tk) [
  | inl (_, p) ↦ cc
  | inr (d, tk', k) ↦ record {
    next = tk';
    took = subst (λ z. Took tk z tk') (ground (arith, k.splits)) k;
    rest_is = ground (arith, k.splits);
  }
]

pub round-step :
    {tk tk' : Toker} {c : ℕ} (sc : Scan) (st : State)
    → Took tk c tk'
    → tk.state ≡ st
    → round tk sc ≡ step_in st tk' sc c
unfolding round step
round-step {tk} {tk'} {c} sc st k s =
    rw (k.gives, round) (ap (λ z. step_in z tk' sc c) (k.state_is ∙ s))

pub loop-more :
    (f : ℕ) (tk : Toker) (sc : Scan) {tk' : Toker} {sc' : Scan}
    → round tk sc ≡ ok (more tk' sc')
    → read_loop (suc f) tk sc ≡ read_loop f tk' sc'
unfolding read_loop
loop-more f tk sc e = rw (e, read_loop) refl

pub loop-token :
    (f : ℕ) (tk : Toker) (sc : Scan) {tk' : Toker} {tok : Token}
    → round tk sc ≡ ok (token tk' tok)
    → read_loop (suc f) tk sc ≡ ok (tk', tok)
unfolding read_loop
loop-token f tk sc e = rw (e, read_loop) refl

pub loop-fault :
    (f : ℕ) (tk : Toker) (sc : Scan) {why : Fault}
    → round tk sc ≡ fault why
    → read_loop (suc f) tk sc ≡ fault why
unfolding read_loop
loop-fault f tk sc e = rw (e, read_loop) refl

-- A result that is a token of this type and text, with `rest` left behind it.
pub record Yields (r : Outcome (Toker × Token)) (type : TokenType) (text rest : Bytes)
    : Type 0 where
  pub after : Toker
  pub tok : Token
  pub gives : r ≡ ok (after, tok)
  pub type_is : tok.type ≡ type
  pub text_is : tok.text ≡ text
  pub left_is : pending after ≡ rest
  pub state_is : after.state ≡ st_none

-- Before the loop: the token starts where the last one ended.
abbrev pub begin : Toker → Toker
begin tk = record tk { current_start_col = tk.last_loc.end_col + 1 }

-- The call of readToken is its loop, once the state is accepted.
pub read_token-loop :
    (tk : Toker) → tk.state ≡ st_none → read_token tk ≡ read_loop (enough tk) (begin tk) fresh
unfolding read_token
read_token-loop tk s = rw s refl
