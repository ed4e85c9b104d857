-- ===== src/Toker/Safety/Base.antt =====
-- The first character of a token.
use crack.Prelude.{ℕ, ◌+◌, ◌*◌, ◌≤◌, ◌≡◌, inl, inr, refl, true, Bytes, arith, ◌∷◌, ◌==◌, ◌||◌}
use crack.Token.{type_code}
use crack.Toker.Chars.{is_space, is_digit, is_alpha, is_negative}
use crack.Toker.Safety.Rules.{pick, emit_here, abort-Post, go_on}
use crack.Toker.Safety.{Filled-last, Got, Post, Colonless, Clear}
use crack.Toker.Read.{may_read}
use crack.Toker.Scan.{enter, Scan}
use crack.Toker.State.{Toker, left, init_indent, st_none, st_interp_none}
use crack.Toker.Step.Base.{
  base_rest, base_arith, base_brackets, base_digrams, step_interp_none, step_none,
}

-- The text behind `=` or `!` does not begin with a colon.
after_equals : (c : ℕ) (p : Bytes) → (c == b'=' || c == b'!') ≡ true → Clear (c ∷ p) → Colonless p
after_equals c p e (inr h, _) = h
after_equals c p e (inl h, _) = absurd (ground (arith, h))

module _ {text : Bytes} {total : ℕ} {n : ℕ} (tk : Toker) (sc : Scan) (c : ℕ)
    (g : Got text total st_none tk sc c) (ready : may_read tk.state ≡ true)
    (enough : 2 * left tk + 2 ≤ n) where
  base_rest-Post : Post text total n (base_rest tk sc c)
  unfolding base_rest type_code init_indent
  base_rest-Post =
      pick (c == b'"' || c == b'\'') (λ _. go_on g _ _ refl (omega arith) (refl, tt) enough)
        λ _.
          pick (c == b':')
            (λ _. go_on g _ _ refl (omega arith) (refl, refl, inr tt, Filled-last sc.sym c) enough)
            λ _.
              pick (c == b'.') (λ _. go_on g _ _ refl (omega arith) tt enough)
                λ _.
                  pick (c == b'@') (λ _. emit_here g _ _ _ refl ready refl)
                    λ _.
                      pick (is_digit c)
                        (λ _.
                          pick (c == b'0') (λ _. go_on g _ _ refl (omega arith) tt enough)
                            (λ _. go_on g _ _ refl (omega arith) tt enough))
                        λ _.
                          pick (c == b'~') (λ _. emit_here g _ _ _ refl ready refl)
                            λ _.
                              pick (c == b'`') (λ _. emit_here g _ _ _ refl refl refl)
                                λ _.
                                  pick (c == b'?') (λ _. emit_here g _ _ _ refl ready refl)
                                    λ _. abort-Post _ _

  base_arith-Post : Post text total n (base_arith tk sc c)
  unfolding base_arith type_code
  base_arith-Post =
      pick (c == b'+') (λ _. go_on g _ _ refl (omega arith) tt enough)
        λ _.
          pick (c == b'-') (λ _. go_on g _ _ refl (omega arith) tt enough)
            λ _.
              pick (c == b'&') (λ _. go_on g _ _ refl (omega arith) tt enough)
                λ _.
                  pick (c == b'|') (λ _. go_on g _ _ refl (omega arith) tt enough)
                    λ _.
                      pick (c == b'*') (λ _. go_on g _ _ refl (omega arith) (refl, refl) enough)
                        λ _.
                          pick (c == b'%') (λ _. go_on g _ _ refl (omega arith) (refl, refl) enough)
                            λ _.
                              pick (c == b'/') (λ _. go_on g _ _ refl (omega arith) tt enough)
                                λ _.
                                  pick (c == b'^')
                                    (λ _. go_on g _ _ refl (omega arith) (refl, refl) enough)
                                    λ _. base_rest-Post

  base_brackets-Post : Post text total n (base_brackets tk sc c)
  unfolding base_brackets type_code
  base_brackets-Post =
      pick (c == b'(') (λ _. emit_here g _ _ _ refl ready refl)
        λ _.
          pick (c == b')') (λ _. emit_here g _ _ _ refl ready refl)
            λ _.
              pick (c == b'{') (λ _. emit_here g _ _ _ refl ready refl)
                λ _.
                  pick (c == b'}') (λ _. emit_here g _ _ _ refl ready refl)
                    λ _.
                      pick (c == b'[') (λ _. emit_here g _ _ _ refl ready refl)
                        λ _.
                          pick (c == b']') (λ _. emit_here g _ _ _ refl ready refl)
                            λ _.
                              pick (c == b'$') (λ _. emit_here g _ _ _ refl ready refl)
                                λ _. base_arith-Post

  base_digrams-Post : Post text total n (base_digrams tk sc c)
  unfolding base_digrams type_code
  base_digrams-Post =
      pick (c == b';') (λ _. emit_here g _ _ _ refl ready refl)
        λ _.
          pick (c == b',') (λ _. emit_here g _ _ _ refl ready refl)
            λ _.
              pick (c == b'=')
                (λ e.
                  go_on g _ _ refl (omega arith)
                    (
                      refl,
                      refl,
                      inl (after_equals c _ (ground arith) g.clear),
                      Filled-last sc.sym c,
                    )
                    enough)
                λ _.
                  pick (c == b'!')
                    (λ e.
                      go_on g _ _ refl (omega arith)
                        (
                          refl,
                          refl,
                          inl (after_equals c _ (ground arith) g.clear),
                          Filled-last sc.sym c,
                        )
                        enough)
                    λ _.
                      pick (c == b'>')
                        (λ _.
                          go_on g _ _ refl (omega arith) (refl, refl, refl, Filled-last sc.sym c)
                            enough)
                        λ _.
                          pick (c == b'<')
                            (λ _.
                              go_on g _ _ refl (omega arith)
                                (refl, refl, refl, Filled-last sc.sym c) enough)
                            λ _. base_brackets-Post

module _ {text : Bytes} {total : ℕ} {n : ℕ} (tk : Toker) (sc : Scan) (c : ℕ)
    (enough : 2 * left tk + 2 ≤ n) where
  interp_none : Got text total st_none tk sc c → Post text total n (step_interp_none tk sc c)
  unfolding step_interp_none
  interp_none g =
      pick (is_space c) (λ _. go_on g _ _ refl (omega arith) tt enough)
        λ _.
          pick (is_alpha c || c == b'_' || is_negative c)
            (λ _. go_on g _ _ refl (omega arith) tt enough)
            λ _.
              pick (c == b'#') (λ _. go_on g _ _ refl (omega arith) tt enough)
                λ _. base_digrams-Post (enter tk st_none) sc c (again g) refl enough
    where
      again : Got text total st_none tk sc c → Got text total st_none (enter tk st_none) sc c
      again g = record {
        whole = g.whole;
        at_spot = g.at_spot;
        clear = g.clear;
        newline = g.newline;
        fits = g.fits;
        spent = g.spent;
      }

  pub step_interp_none-Post :
      Got text total st_interp_none tk sc c → Post text total n (step_interp_none tk sc c)
  step_interp_none-Post g = interp_none (record {
    whole = g.whole;
    at_spot = g.at_spot;
    clear = g.clear;
    newline = g.newline;
    fits = g.fits;
    spent = g.spent;
  })

  pub step_none-Post : Got text total st_none tk sc c → Post text total n (step_none tk sc c)
  unfolding step_none
  step_none-Post g =
      pick (c == b'i' || c == b'b') (λ _. go_on g _ _ refl (omega arith) tt enough)
        λ _.
          pick (c == b'r') (λ _. go_on g _ _ refl (omega arith) tt enough)
            λ _. pick (c == b'I') (λ _. go_on g _ _ refl (omega arith) tt enough) λ _. interp_none g
