-- ===== src/Toker/Safety/Strings.antt =====
-- The escapes of strings and i-strings.
use crack.Prelude.{
  ◌∙◌, ℕ, ◌+◌, ◌*◌, ◌≤◌, ◌≡◌, ◌⊎◌, inl, inr, refl, Bool, true, false, Bytes, Option, some, none,
  arith, ◌==◌, ltb, ◌&&◌, if◌then◌else◌, ok, Outcome, ◌>>=◌, Bool-cases,
}
use crack.Token.{TokenType}
use crack.Toker.Chars.{is_digit}
use crack.Toker.Safety.Rules.{
  pick, Written-Post, abort-Post, go_on, back, go_back, core, room-le, left_of, stay,
}
use crack.Toker.Safety.{Got, Post, Known, Written, Coded, used}
use crack.Toker.Scan.{Scan, Step, more}
use crack.Toker.State.{
  Toker, State, left, st_str_escape_char, st_istr_escape_char, st_str_octal, st_istr_octal,
  st_str_hex, st_istr_hex, st_str_escaped_indented_newline, st_istr_escaped_indented_newline,
}
use crack.Toker.Step.Strings.{
  step_escape_char, step_escaped_newline, step_str_octal, step_str_hex, hex_value, octal_digit,
  escape_other, escape_newline, back as home,
}

-- What the states inside a string need of the local variables; inside an i-string, nothing.
abbrev Inside : Bool → Option TokenType → Option ℕ → Type 0
Inside true t stop = Unit {0}
Inside false t stop = Known t × Written stop

abbrev escape_state : Bool → State
escape_state true = st_istr_escape_char
escape_state false = st_str_escape_char

abbrev octal_state : Bool → State
octal_state istr = if istr then st_istr_octal else st_str_octal

abbrev hex_state : Bool → State
hex_state istr = if istr then st_istr_hex else st_str_hex

abbrev newline_state : Bool → State
newline_state istr =
    if istr then st_istr_escaped_indented_newline else st_str_escaped_indented_newline

module _ {text : Bytes} {total n : ℕ} {st : State} {tk : Toker} {sc : Scan} {c : ℕ}
    (g : Got text total st tk sc c) (u : 1 ≤ used st) (enough : 2 * left tk + 2 ≤ n) where
  -- Back to the string, the character kept.
  go_home :
      (istr : Bool) (tk' : Toker) (sc' : Scan)
      → core tk' ≡ core tk
      → tk'.state ≡ home istr
      → Inside istr sc'.t1 sc'.terminator
      → Post text total n (ok (more tk' sc'))
  go_home true tk' sc' same s h =
      go_on g _ _ same (rw s (omega (arith, room-le st)))
        (rw s (inr (omega (arith, left_of same, g.spent)))) enough
  go_home false tk' sc' same s h =
      go_on g _ _ same (rw s (omega (arith, room-le st))) (rw s h) enough

  -- On to the blanks behind a newline.
  go_newline :
      (istr : Bool) (tk' : Toker) (sc' : Scan)
      → core tk' ≡ core tk
      → tk'.state ≡ newline_state istr
      → Inside istr sc'.t1 sc'.terminator
      → Post text total n (ok (more tk' sc'))
  go_newline true tk' sc' same s h =
      go_on g _ _ same (rw s (omega (arith, room-le st))) (rw s tt) enough
  go_newline false tk' sc' same s h =
      go_on g _ _ same (rw s (omega (arith, room-le st))) (rw s h) enough

  -- On to the digits of a code, whose variables are written.
  go_code :
      (istr : Bool) (to : Bool → State) (tk' : Toker) (sc' : Scan)
      → core tk' ≡ core tk
      → tk'.state ≡ to istr
      → (to istr ≡ octal_state istr) ⊎ (to istr ≡ hex_state istr)
      → Inside istr sc'.t1 sc'.terminator
      → Coded sc'
      → Post text total n (ok (more tk' sc'))
  go_code true to tk' sc' same s (inl e) h w =
      go_on g _ _ same (rw (s, e) (omega (arith, room-le st))) (rw (s, e) w) enough
  go_code true to tk' sc' same s (inr e) h w =
      go_on g _ _ same (rw (s, e) (omega (arith, room-le st))) (rw (s, e) w) enough
  go_code false to tk' sc' same s (inl e) h w =
      go_on g _ _ same (rw (s, e) (omega (arith, room-le st))) (rw (s, e) (h, w)) enough
  go_code false to tk' sc' same s (inr e) h w =
      go_on g _ _ same (rw (s, e) (omega (arith, room-le st))) (rw (s, e) (h, w)) enough

  escape_newline-Post :
      (istr : Bool)
      → Inside istr sc.t1 sc.terminator
      → Post text total n (escape_newline istr tk sc)
  unfolding escape_newline
  escape_newline-Post istr h =
      pick tk.indented_string (λ _. go_newline istr _ _ refl refl h)
        λ _. go_home istr _ _ refl refl h

  escape_other-Post :
      (istr : Bool)
      → Inside istr sc.t1 sc.terminator
      → Post text total n (escape_other istr tk sc c)
  unfolding escape_other
  escape_other-Post istr h =
      pick (is_digit c && ltb c b'8')
        (λ _. go_code istr octal_state _ _ refl refl (inl refl) h (tt, tt))
        λ _. go_home istr _ _ refl refl h

module _ {text : Bytes} {total n : ℕ} where
  octal_digit-Post :
      (o : Option ℕ) (c : ℕ) (k : Bool → Outcome Step)
      → Written o
      → ((b : Bool) → Post text total n (k b))
      → Post text total n (octal_digit o c >>= k)
  unfolding octal_digit
  octal_digit-Post none c k w p = absurd w
  octal_digit-Post (some len) c k w p = elim (Bool-cases (is_digit c && ltb c b'8')) [
    | inl e ↦ rw e (p (ltb len 3))
    | inr e ↦ rw e (p false)
  ]

module _ {text : Bytes} {total n : ℕ} {tk : Toker} {sc : Scan} {c : ℕ}
    (enough : 2 * left tk + 2 ≤ n) where
  escape_char :
      {st : State} (istr : Bool)
      → Got text total st tk sc c
      → 1 ≤ used st
      → Inside istr sc.t1 sc.terminator
      → Post text total n (step_escape_char istr tk sc c)
  unfolding step_escape_char
  escape_char istr g u h =
      pick (c == b't') (λ _. go_home g u enough istr _ _ refl refl h)
        λ _.
          pick (c == b'n') (λ _. go_home g u enough istr _ _ refl refl h)
            λ _.
              pick (c == b'a') (λ _. go_home g u enough istr _ _ refl refl h)
                λ _.
                  pick (c == b'r') (λ _. go_home g u enough istr _ _ refl refl h)
                    λ _.
                      pick (c == b'b') (λ _. go_home g u enough istr _ _ refl refl h)
                        λ _.
                          pick (c == b'x')
                            (λ _.
                              go_code g u enough istr hex_state _ _ refl refl (inr refl) h (tt, tt))
                            λ _.
                              pick (c == b'\n') (λ _. escape_newline-Post g u enough istr h)
                                λ _. escape_other-Post g u enough istr h

  pub step_str_escape_char-Post :
      Got text total st_str_escape_char tk sc c
      → Known sc.t1 × Written sc.terminator
      → Post text total n (step_escape_char false tk sc c)
  step_str_escape_char-Post g h = escape_char false g (omega arith) h

  pub step_istr_escape_char-Post :
      Got text total st_istr_escape_char tk sc c → Post text total n (step_escape_char true tk sc c)
  step_istr_escape_char-Post g = escape_char true g (omega arith) tt

  hex :
      {st : State} (istr : Bool)
      → Got text total st tk sc c
      → tk.state ≡ st
      → st ≡ hex_state istr
      → Inside istr sc.t1 sc.terminator
      → Coded sc
      → (d : Option ℕ) → hex_value c ≡ d
      → Post text total n (step_str_hex istr tk sc c)
  unfolding step_str_hex
  hex istr g s e h w none v = rw (v, step_str_hex) (abort-Post _ _)
  hex true g s e h w (some d) v =
      rw (v, step_str_hex)
        (Written-Post sc.code_char _ w.0 λ value. Written-Post sc.code_len _ w.1 λ len.
          pick (len + 1 == 2) (λ _. go_home g (rw e (omega arith)) enough true _ _ refl refl h)
            λ _.
              go_code g (rw e (omega arith)) enough true hex_state _ _ refl (s ∙ e) (inr refl) h
                (tt, tt))
  hex false g s e h w (some d) v =
      rw (v, step_str_hex)
        (Written-Post sc.code_char _ w.0 λ value. Written-Post sc.code_len _ w.1 λ len.
          pick (len + 1 == 2) (λ _. go_home g (rw e (omega arith)) enough false _ _ refl refl h)
            λ _.
              go_code g (rw e (omega arith)) enough false hex_state _ _ refl (s ∙ e) (inr refl) h
                (tt, tt))

  pub step_str_hex-Post :
      tk.state ≡ st_str_hex
      → Got text total st_str_hex tk sc c
      → (Known sc.t1 × Written sc.terminator) × Coded sc
      → Post text total n (step_str_hex false tk sc c)
  step_str_hex-Post s g h = hex false g s refl h.0 h.1 _ refl

  pub step_istr_hex-Post :
      tk.state ≡ st_istr_hex
      → Got text total st_istr_hex tk sc c
      → Coded sc
      → Post text total n (step_str_hex true tk sc c)
  step_istr_hex-Post s g w = hex true g s refl tt w _ refl

  pub step_str_octal-Post :
      tk.state ≡ st_str_octal
      → Got text total st_str_octal tk sc c
      → 2 * left tk + 3 ≤ n
      → (Known sc.t1 × Written sc.terminator) × Coded sc
      → Post text total n (step_str_octal false tk sc c)
  unfolding step_str_octal
  step_str_octal-Post s g room (h, w) = octal_digit-Post sc.code_len c _ w.1 λ digit.
      Written-Post sc.code_char _ w.0 λ value.
        pick digit
          (λ _. Written-Post sc.code_len _ w.1 λ len. stay g _ _ refl s (h, (tt, tt)) enough)
          λ _. back g _ _ refl (go_back g _ _ refl (omega arith) h (omega arith))

  pub step_istr_octal-Post :
      tk.state ≡ st_istr_octal
      → Got text total st_istr_octal tk sc c
      → 2 * left tk + 3 ≤ n
      → Coded sc
      → Post text total n (step_str_octal true tk sc c)
  unfolding step_str_octal
  step_istr_octal-Post s g room w = octal_digit-Post sc.code_len c _ w.1 λ digit.
      Written-Post sc.code_char _ w.0 λ value.
        pick digit (λ _. Written-Post sc.code_len _ w.1 λ len. stay g _ _ refl s (tt, tt) enough)
          λ _.
            back g _ _ refl
              (go_back g _ _ refl (omega arith) (inr (omega (arith, g.spent))) (omega arith))

  pub step_str_newline-Post :
      tk.state ≡ st_str_escaped_indented_newline
      → Got text total st_str_escaped_indented_newline tk sc c
      → 2 * left tk + 3 ≤ n
      → Known sc.t1 × Written sc.terminator
      → Post text total n (step_escaped_newline false tk sc c)
  unfolding step_escaped_newline
  step_str_newline-Post s g room h =
      pick (c == b' ') (λ _. stay g _ _ refl s h enough)
        λ _.
          pick (c == b'\t') (λ _. stay g _ _ refl s h enough)
            λ _. back g _ _ refl (go_back g _ _ refl (omega arith) h (omega arith))

  pub step_istr_newline-Post :
      tk.state ≡ st_istr_escaped_indented_newline
      → Got text total st_istr_escaped_indented_newline tk sc c
      → 2 * left tk + 3 ≤ n
      → Post text total n (step_escaped_newline true tk sc c)
  unfolding step_escaped_newline
  step_istr_newline-Post s g room =
      pick (c == b' ') (λ _. stay g _ _ refl s tt enough)
        λ _.
          pick (c == b'\t') (λ _. stay g _ _ refl s tt enough)
            λ _.
              back g _ _ refl
                (go_back g _ _ refl (omega arith) (inr (omega (arith, g.spent))) (omega arith))
