-- ===== src/Toker/Safety/Symbols.antt =====
-- Operators.
use crack.Prelude.{
  ℕ, ◌+◌, ◌*◌, ◌≤◌, ◌≡◌, ◌⊎◌, inl, inr, refl, Bool, Bool-cases, true, false, Bytes, Option, some,
  none, arith, ◌==◌, Outcome, ok, ◌>>=◌, [], ◌∷◌,
}
use crack.Token.{TokenType, ◌is◌, type_code, end, scoping}
use crack.Toker.Safety.Rules.{pick, emit_here, emit_back, back, go_on, need-Post}
use crack.Toker.Safety.{Got, Post, Known, Written, Filled, used}
use crack.Toker.Chars.{is_digit}
use crack.Toker.Scan.{Scan, Step, need}
use crack.Toker.State.{
  Toker, State, left, st_amp, st_pipe, st_minus, st_plus, st_ltgt, st_postaug, st_period, st_slash,
}
use crack.Toker.Step.Symbols.{
  step_doubled, step_amp, step_pipe, step_minus, step_plus, step_digram, step_ltgt, step_postaug,
  step_period, step_slash, is_scoping, first_sym,
}

known-Written : (o : Option TokenType) → Known o → Written o
known-Written (some t) k = tt
known-Written none k = k

written : {b : Bool} (o : Option TokenType) → b ≡ true → (b ≡ false) ⊎ Written o → Written o
written o e (inl e') = absurd (ground arith)
written o e (inr w) = w

module _ {text : Bytes} {total : ℕ} where
  step_doubled-Post :
      {n : ℕ} {st : State} {tk : Toker} {sc : Scan} {c : ℕ} (single twice augmented : TokenType)
      (a : ℕ)
      → Got text total st tk sc c
      → 1 ≤ used st
      → (single is end) ≡ false
      → (twice is end) ≡ false
      → (augmented is end) ≡ false
      → Post text total n (step_doubled single twice augmented a tk c)
  unfolding step_doubled
  step_doubled-Post {c} single twice augmented a g u e1 e2 e3 =
      pick (c == a) (λ _. emit_here g _ _ _ refl refl e2)
        λ _.
          pick (c == b'=') (λ _. emit_here g _ _ _ refl refl e3)
            λ _. back g _ _ refl (emit_back g _ _ _ refl refl e1 (omega (arith, g.spent)))

  module _ (tk : Toker) (sc : Scan) (c : ℕ) where
    pub step_amp-Post :
        {n : ℕ} → Got text total st_amp tk sc c → Post text total n (step_amp tk sc c)
    unfolding step_amp type_code
    step_amp-Post g = step_doubled-Post _ _ _ _ g (omega arith) refl refl refl

    pub step_pipe-Post :
        {n : ℕ} → Got text total st_pipe tk sc c → Post text total n (step_pipe tk sc c)
    unfolding step_pipe type_code
    step_pipe-Post g = step_doubled-Post _ _ _ _ g (omega arith) refl refl refl

    pub step_minus-Post :
        {n : ℕ} → Got text total st_minus tk sc c → Post text total n (step_minus tk sc c)
    unfolding step_minus type_code
    step_minus-Post g = step_doubled-Post _ _ _ _ g (omega arith) refl refl refl

    pub step_plus-Post :
        {n : ℕ} → Got text total st_plus tk sc c → Post text total n (step_plus tk sc c)
    unfolding step_plus type_code
    step_plus-Post g = step_doubled-Post _ _ _ _ g (omega arith) refl refl refl

  asks :
      {n : ℕ} (o : Option TokenType) (k : Bool → Outcome Step)
      → Written o
      → ((b : Bool) → Post text total n (k b))
      → Post text total n (need o >>= (λ t. ok (t is scoping)) >>= k)
  asks none k h p = absurd h
  asks (some t) k h p = p (t is scoping)

  first_sym-Post :
      {n : ℕ} (cs : Bytes) (k : ℕ → Outcome Step)
      → Filled cs
      → ((s : ℕ) → Post text total n (k s))
      → Post text total n (first_sym cs >>= k)
  unfolding first_sym
  first_sym-Post [] k h p = absurd h
  first_sym-Post (s ∷ cs) k h p = p s

  scoping-Post :
      {n : ℕ} (sc : Scan) (c : ℕ) (k : Bool → Outcome Step)
      → ((c == b':') ≡ false) ⊎ Written sc.t3
      → ((b : Bool) → Post text total n (k b))
      → Post text total n (is_scoping sc c >>= k)
  unfolding is_scoping
  scoping-Post sc c k w p = elim (Bool-cases (c == b':')) [
    | inl e ↦ rw e (asks sc.t3 k (written sc.t3 e w) p)
    | inr e ↦ rw e (p false)
  ]

  module _ (tk : Toker) (sc : Scan) (c : ℕ) where
    pub step_postaug-Post :
        {n : ℕ}
        → Got text total st_postaug tk sc c
        → Known sc.t1
        → Known sc.t2
        → Post text total n (step_postaug tk sc c)
    unfolding step_postaug
    step_postaug-Post g k1 k2 =
        pick (c == b'=') (λ _. need-Post _ _ k2 λ t e. emit_here g _ _ _ refl refl e)
          λ _. back g _ _ refl (need-Post _ _ k1 λ t e. emit_back g _ _ _ refl refl e (omega arith))

    pub step_digram-Post :
        {n : ℕ} {st : State}
        → Got text total st tk sc c
        → 1 ≤ used st
        → Known sc.t1
        → Known sc.t2
        → ((c == b':') ≡ false) ⊎ Written sc.t3
        → Filled sc.sym
        → Post text total n (step_digram tk sc c)
    unfolding step_digram type_code
    step_digram-Post g u k1 k2 k3 k4 =
        pick (c == b'=') (λ _. need-Post _ _ k2 λ t e. emit_here g _ _ _ refl refl e)
          λ _. scoping-Post sc c _ k3 λ b.
            pick b (λ _. emit_here g _ _ _ refl refl refl)
              λ _. back g _ _ refl (
                need-Post _ _ k1 λ t e.
                  first_sym-Post sc.sym _ k4
                    λ s. emit_back g _ _ _ refl refl e (omega (arith, g.spent)))

    pub step_ltgt-Post :
        {n : ℕ}
        → Got text total st_ltgt tk sc c
        → 2 * left tk + 2 ≤ n
        → Known sc.t1
        → Known sc.t2
        → Known sc.t3
        → Filled sc.sym
        → Post text total n (step_ltgt tk sc c)
    unfolding step_ltgt type_code
    step_ltgt-Post g h k1 k2 k3 k4 = first_sym-Post sc.sym _ k4 λ s.
        pick (c == s) (λ _. go_on g _ _ refl (omega arith) (k3, ground arith) h)
          λ _. step_digram-Post g (omega arith) k1 k2 (inr (known-Written sc.t3 k3)) k4

    pub step_period-Post :
        {n : ℕ}
        → Got text total st_period tk sc c
        → 2 * left tk + 2 ≤ n
        → Post text total n (step_period tk sc c)
    unfolding step_period type_code
    step_period-Post g h =
        pick (is_digit c) (λ _. go_on g _ _ refl (omega arith) tt h)
          λ _. back g _ _ refl (emit_back g _ _ _ refl refl refl (omega arith))

    pub step_slash-Post :
        {n : ℕ}
        → Got text total st_slash tk sc c
        → 2 * left tk + 2 ≤ n
        → Post text total n (step_slash tk sc c)
    unfolding step_slash type_code
    step_slash-Post g h =
        pick (c == b'/') (λ _. go_on g _ _ refl (omega arith) tt h)
          λ _.
            pick (c == b'=') (λ _. emit_here g _ _ _ refl refl refl)
              λ _.
                pick (c == b'*') (λ _. go_on g _ _ refl (omega arith) tt h)
                  λ _. back g _ _ refl (emit_back g _ _ _ refl refl refl (omega arith))
