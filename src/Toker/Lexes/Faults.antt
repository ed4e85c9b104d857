-- ===== src/Toker/Lexes/Faults.antt =====
-- parser/Toker.cc, readToken: a colon behind `=` or `!`, and the variable t3.
use crack.Token.{assign, eq, bang, ne}
use crack.Prelude.{
  some, none, ℕ, suc, ◌*◌, ◌≡◌, ◌⊎◌, inl, inr, refl, ap, ◌∙◌, Bytes, ◌∷◌, [], arith, ok, fault,
  uninitialised,
}
use crack.Toker.Lexes.{begin, take, round-step, loop-more, loop-fault, read_token-loop}
use crack.Toker.Read.{read_token, read_loop}
use crack.Toker.Safety.{pending}
use crack.Toker.Chars.{is_space, is_alpha, is_negative}
use crack.Toker.Scan.{more, Scan, fresh}
use crack.Toker.State.{Toker, left, st_none, st_digram}
use crack.Toker.Step.Base.{step_none}
use crack.Toker.Step.Symbols.{step_digram}
use crack.Toker.Step.{step_in}

-- What `=` and `!` leave in the local variables.
equals :
    (c : ℕ) (tk : Toker)
    → (c ≡ b'=') ⊎ (c ≡ b'!')
    → (sc : Scan) × (step_in st_none tk fresh c ≡ ok (more (record tk { state = st_digram }) sc))
      × (sc.t3 ≡ none)
unfolding step_in step_none is_space is_alpha is_negative
equals c tk (inl e) =
    (record fresh { sym = c ∷ []; t1 = some assign; t2 = some eq }, rw e refl, refl)
equals c tk (inr e) = (record fresh { sym = c ∷ []; t1 = some bang; t2 = some ne }, rw e refl, refl)

colon : (tk : Toker) (sc : Scan) → sc.t3 ≡ none → step_in st_digram tk sc b':' ≡ fault uninitialised
unfolding step_in step_digram
colon tk sc e = rw (e, step_in, step_digram) refl

module _ (c : ℕ) (tk : Toker) (rest : Bytes) (sym : (c ≡ b'=') ⊎ (c ≡ b'!')) where
  in_loop :
      (f : ℕ)
      → tk.state ≡ st_none
      → pending tk ≡ c ∷ b':' ∷ rest
      → read_loop (suc (suc f)) tk fresh ≡ fault uninitialised
  in_loop f s p =
      let one = take tk c (b':' ∷ rest) p in
      let (sc, e, n) = equals c one.next sym in
      let was : Toker = record one.next { state = st_digram } in
      let two = take was b':' rest one.rest_is in
      loop-more (suc f) tk fresh (round-step fresh st_none one.took s ∙ e)
      ∙ loop-fault f was sc (round-step sc st_digram two.took refl ∙ colon two.next sc n)

-- Between tokens, `=` or `!` with a colon right behind it makes readToken test a variable that it has
-- not written.
pub equals_colon :
    (c : ℕ) (tk : Toker) (rest : Bytes)
    → (c ≡ b'=') ⊎ (c ≡ b'!')
    → tk.state ≡ st_none
    → pending tk ≡ c ∷ b':' ∷ rest
    → read_token tk ≡ fault uninitialised
equals_colon c tk rest sym s p =
    read_token-loop tk s
    ∙ ap (λ m. read_loop m (begin tk) fresh) (omega arith)
    ∙ in_loop c (begin tk) rest sym (2 * left tk) s p
