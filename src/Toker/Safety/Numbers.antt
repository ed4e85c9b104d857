-- ===== src/Toker/Safety/Numbers.antt =====
-- Number tokens.
use mathlib.Core.Path.{subst}
use crack.Prelude.{ℕ, ◌+◌, ◌*◌, ◌≤◌, ◌≡◌, inl, refl, Bytes, arith, ◌∷◌, ◌==◌, ◌||◌}
use crack.Token.{type_code}
use crack.Toker.Chars.{is_digit, is_xdigit, within}
use crack.Toker.Safety.Rules.{
  pick, abort-Post, go_on, back, emit_back, go_back, Spot-back, stay, ungot, room-le,
}
use crack.Toker.Safety.{Suffix, Got, Post, pending}
use crack.Toker.Scan.{Scan}
use crack.Toker.State.{
  Toker, State, left, st_none, st_binary, st_octal, st_hex, st_zero, st_number, st_intdot, st_float,
  st_exponent, st_exponent2, st_exponent3,
}
use crack.Toker.Step.Numbers.{
  step_binary, step_octal, step_hex, step_zero, step_number, step_intdot, step_float, step_exponent,
  step_exponent2, step_exponent3, is_binary_digit,
}
use crack.Toker.Step.Strings.{is_empty}

-- A point is behind the text that follows it.
dotted :
    {text : Bytes} {total : ℕ} {tk : Toker} {sc : Scan} {c : ℕ}
    → Got text total st_number tk sc c
    → c ≡ b'.'
    → Suffix (b'.' ∷ pending tk) text
dotted {text} {tk = tk} g e = subst (λ z. Suffix (z ∷ pending tk) text) e g.whole

module _ {text : Bytes} {total n : ℕ} (tk : Toker) (sc : Scan) (c : ℕ)
    (enough : 2 * left tk + 2 ≤ n) where
  pub step_binary-Post :
      tk.state ≡ st_binary
      → Got text total st_binary tk sc c
      → Post text total n (step_binary tk sc c)
  unfolding step_binary type_code
  step_binary-Post s g =
      pick (is_binary_digit c) (λ _. stay g _ _ refl s tt enough)
        λ _. back g _ _ refl (
          pick (is_empty sc.buf) (λ _. abort-Post _ _)
            λ _. emit_back g _ _ _ refl refl refl (omega arith))

  pub step_octal-Post :
      tk.state ≡ st_octal → Got text total st_octal tk sc c → Post text total n (step_octal tk sc c)
  unfolding step_octal type_code
  step_octal-Post s g =
      pick (within b'0' b'7' c) (λ _. stay g _ _ refl s tt enough)
        λ _. back g _ _ refl (
          pick (is_empty sc.buf) (λ _. abort-Post _ _)
            λ _. emit_back g _ _ _ refl refl refl (omega arith))

  pub step_hex-Post :
      tk.state ≡ st_hex → Got text total st_hex tk sc c → Post text total n (step_hex tk sc c)
  unfolding step_hex type_code
  step_hex-Post s g =
      pick (is_xdigit c) (λ _. stay g _ _ refl s tt enough)
        λ _. back g _ _ refl (
          pick (is_empty sc.buf) (λ _. abort-Post _ _)
            λ _. emit_back g _ _ _ refl refl refl (omega arith))

  pub step_zero-Post :
      Got text total st_zero tk sc c → 2 * left tk + 3 ≤ n → Post text total n (step_zero tk sc c)
  unfolding step_zero type_code
  step_zero-Post g enough1 =
      pick (c == b'x' || c == b'X') (λ _. go_on g _ _ refl (omega arith) tt enough)
        λ _.
          pick (c == b'o' || c == b'O') (λ _. go_on g _ _ refl (omega arith) tt enough)
            λ _.
              pick (c == b'b' || c == b'b') (λ _. go_on g _ _ refl (omega arith) tt enough)
                λ _.
                  pick (c == b'.') (λ _. go_on g _ _ refl (omega arith) tt enough)
                    λ _.
                      pick (is_digit c)
                        (λ _. back g _ _ refl (go_back g _ _ refl (omega arith) tt (omega arith)))
                        λ _. back g _ _ refl (emit_back g _ _ _ refl refl refl (omega arith))

  pub step_number-Post :
      tk.state ≡ st_number
      → Got text total st_number tk sc c
      → Post text total n (step_number tk sc c)
  unfolding step_number type_code
  step_number-Post s g =
      pick (is_digit c) (λ _. stay g _ _ refl s tt enough)
        λ _.
          pick (c == b'.') (λ e. go_on g _ _ refl (omega arith) (dotted g (ground arith)) enough)
            λ _.
              pick (c == b'e' || c == b'E') (λ _. go_on g _ _ refl (omega arith) tt enough)
                λ _. back g _ _ refl (emit_back g _ _ _ refl refl refl (omega arith))

  pub step_float-Post :
      tk.state ≡ st_float → Got text total st_float tk sc c → Post text total n (step_float tk sc c)
  unfolding step_float type_code
  step_float-Post s g =
      pick (is_digit c) (λ _. stay g _ _ refl s tt enough)
        λ _.
          pick (c == b'e' || c == b'E') (λ _. go_on g _ _ refl (omega arith) tt enough)
            λ _. back g _ _ refl (emit_back g _ _ _ refl refl refl (omega arith))

  exponent_digit :
      {st : State} → Got text total st tk sc c → Post text total n (step_exponent2 tk sc c)
  unfolding step_exponent2
  exponent_digit {st} g =
      pick (is_digit c) (λ _. go_on g _ _ refl (omega (arith, room-le st)) tt enough)
        λ _. abort-Post _ _

  pub step_exponent2-Post :
      Got text total st_exponent2 tk sc c → Post text total n (step_exponent2 tk sc c)
  step_exponent2-Post = exponent_digit

  pub step_exponent-Post :
      Got text total st_exponent tk sc c → Post text total n (step_exponent tk sc c)
  unfolding step_exponent type_code
  step_exponent-Post g =
      pick (c == b'+' || c == b'-') (λ _. go_on g _ _ refl (omega arith) tt enough)
        λ _. exponent_digit g

  pub step_exponent3-Post :
      tk.state ≡ st_exponent3
      → Got text total st_exponent3 tk sc c
      → Post text total n (step_exponent3 tk sc c)
  unfolding step_exponent3 type_code
  step_exponent3-Post s g =
      pick (is_digit c) (λ _. stay g _ _ refl s tt enough)
        λ _. back g _ _ refl (emit_back g _ _ _ refl refl refl (omega arith))

  pub step_intdot-Post :
      Got text total st_intdot tk sc c
      → Suffix (b'.' ∷ c ∷ pending tk) text
      → Post text total n (step_intdot tk sc c)
  unfolding step_intdot type_code
  step_intdot-Post g d =
      pick (is_digit c) (λ _. go_on g _ _ refl (omega arith) tt enough)
        λ _.
          back g _ _ refl
            (back point _ _ refl (emit_back point _ _ _ refl refl refl (omega (arith, g.spent))))
    where
      point : Got text total st_none (ungot tk c) sc b'.'
      point = record {
        whole = d;
        at_spot = Spot-back g;
        clear = (inl (refl, refl), g.clear);
        newline = inl refl;
        fits = omega (arith, g.fits);
        spent = omega (arith, g.spent);
      }
