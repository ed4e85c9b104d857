-- ===== src/Toker/Safety/Bodies.antt =====
-- The characters of strings, raw strings and i-strings.
use crack.Prelude.{
  ℕ, ◌+◌, ◌*◌, ◌≤◌, ◌<◌, ◌≡◌, ◌⊎◌, inl, inr, refl, Bool, true, false, not, Bytes, Option, some,
  none, arith, [], ◌==◌, if◌then◌else◌, Outcome, ◌>>=◌, length,
}
use crack.Token.{TokenType, ◌is◌, type_code, end}
use crack.Toker.Safety.Rules.{pick, emit_here, go_on, back, emit_back, need-Post, stay}
use crack.Toker.Safety.{Got, Post, Known, Written}
use crack.Toker.Scan.{emit, Scan, Step, need, enter}
use crack.Toker.Indent.{evaluate_indentation, reindent}
use crack.Toker.State.{Toker, left, st_none, st_istr, st_string, st_raw_str_body, st_raw_str_escape}
use crack.Toker.Step.Strings.{
  step_string, step_raw_str_body, step_raw_str_escape, step_istr, is_empty,
}

-- A read of a terminator that is known to be written.
terminated :
    {text : Bytes} {total n : ℕ} (o : Option ℕ) (k : ℕ → Outcome Step)
    → Written o
    → ((stop : ℕ) → Post text total n (k stop))
    → Post text total n (need o >>= k)
terminated none k h p = absurd h
terminated (some a) k h p = p a

module _ {text : Bytes} {total n : ℕ} {tk : Toker} {sc : Scan} {c : ℕ}
    (enough : 2 * left tk + 2 ≤ n) where
  pub step_raw_str_body-Post :
      tk.state ≡ st_raw_str_body
      → Got text total st_raw_str_body tk sc c
      → Written sc.terminator
      → Post text total n (step_raw_str_body tk sc c)
  unfolding step_raw_str_body type_code
  step_raw_str_body-Post s g h = terminated sc.terminator _ h λ stop.
      pick (c == stop) (λ _. emit_here g _ _ _ refl refl refl)
        λ _.
          pick (c == b'\\') (λ _. go_on g _ _ refl (omega arith) h enough)
            λ _. stay g _ _ refl s h enough

  pub step_raw_str_escape-Post :
      Got text total st_raw_str_escape tk sc c
      → Written sc.terminator
      → Post text total n (step_raw_str_escape tk sc c)
  unfolding step_raw_str_escape
  step_raw_str_escape-Post g h = go_on g _ _ refl (omega arith) h enough

  pub step_istr-Post :
      tk.state ≡ st_istr
      → Got text total st_istr tk sc c
      → (sc.buf ≡ []) ⊎ (left tk + 1 < length text)
      → Post text total n (step_istr tk sc c)
  unfolding step_istr type_code
  step_istr-Post s g h =
      pick (c == b'`')
        (λ _.
          pick (not (is_empty sc.buf))
            (λ e. back g _ _ refl (emit_back g _ _ _ refl (rw s) refl (filled e h)))
            λ _. emit_here g _ _ _ refl refl refl)
        λ _.
          pick (c == b'$') (λ _. emit_here g _ _ _ refl refl refl)
            λ _.
              pick (c == b'\\') (λ _. go_on g _ _ refl (omega arith) tt enough)
                λ _. stay g _ _ refl s (inr (omega (arith, g.spent))) enough
    where
      filled :
          not (is_empty sc.buf) ≡ true
          → (sc.buf ≡ []) ⊎ (left tk + 1 < length text)
          → left tk + 1 < length text
      filled e (inl b) = absurd (ground (arith, b))
      filled e (inr l) = l

  reindented :
      (b : Bool) (t : TokenType)
      → Got text total st_string tk sc c
      → (t is end) ≡ false
      → let r : Toker × Bytes =
          if b then reindent (enter tk st_none) sc.buf else (enter tk st_none, sc.buf) in
        Post text total n (emit r.0 t r.1)
  unfolding reindent evaluate_indentation
  reindented true t g e = emit_here g _ _ _ refl refl e
  reindented false t g e = emit_here g _ _ _ refl refl e

  pub step_string-Post :
      tk.state ≡ st_string
      → Got text total st_string tk sc c
      → Known sc.t1 × Written sc.terminator
      → Post text total n (step_string tk sc c)
  unfolding step_string
  step_string-Post s g (k, h) = terminated sc.terminator _ h λ stop.
      pick (c == stop) (λ _. need-Post _ _ k λ t e. reindented tk.indented_string t g e)
        λ _.
          pick (c == b'\\') (λ _. go_on g _ _ refl (omega arith) (k, h) enough)
            λ _. stay g _ _ refl s (k, h) enough
