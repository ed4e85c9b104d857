-- ===== src/Toker/Safety/Round.antt =====
-- One round of readToken, in any state.
use mathlib.Core.Path.{subst}
use crack.Prelude.{
  ℕ, ◌+◌, ◌*◌, ◌<◌, ◌≡◌, ◌⊎◌, inl, inr, refl, sym, ap, false, Bytes, Option, arith, [], ◌∷◌, ◌==◌,
  count,
}
use crack.Token.{TokenType, type_code}
use crack.Toker.Location.{emit-location}
use crack.Toker.Read.{finish_in, round}
use crack.Toker.Safety.Base.{step_interp_none-Post, step_none-Post}
use crack.Toker.Safety.Symbols.{
  step_amp-Post, step_pipe-Post, step_minus-Post, step_plus-Post, step_postaug-Post,
  step_digram-Post, step_ltgt-Post, step_period-Post, step_slash-Post,
}
use crack.Toker.Safety.Words.{
  step_ident-Post, step_strint-Post, step_raw_str-Post, step_indent_str-Post,
}
use crack.Toker.Safety.Comments.{step_comment-Post, step_ccomment-Post, step_ccomment2-Post}
use crack.Toker.Safety.Strings.{
  step_str_escape_char-Post, step_istr_escape_char-Post, step_str_hex-Post, step_istr_hex-Post,
  step_str_octal-Post, step_istr_octal-Post, step_str_newline-Post, step_istr_newline-Post,
}
use crack.Toker.Safety.Bodies.{
  step_raw_str_body-Post, step_raw_str_escape-Post, step_istr-Post, step_string-Post,
}
use crack.Toker.Safety.Numbers.{
  step_binary-Post, step_octal-Post, step_hex-Post, step_zero-Post, step_number-Post,
  step_float-Post, step_exponent2-Post, step_exponent-Post, step_exponent3-Post, step_intdot-Post,
}
use crack.Toker.Safety.Rules.{abort-Post, room-le}
use crack.Toker.Safety.Took.{Took, get_char_cases}
use crack.Toker.Safety.{
  Suffix, here, there, Got, Post, Locals, Colonless, Written, Before, delivers, used, rank, pending,
  Clear,
}
use crack.Toker.Scan.{Scan}
use crack.Toker.State.{
  Toker, State, left, at_end, st_none, st_interp_none, st_ident, st_slash, st_minus, st_plus,
  st_digram, st_comment, st_ccomment, st_ccomment2, st_string, st_str_escape_char,
  st_istr_escape_char, st_str_octal, st_istr_octal, st_str_hex, st_istr_hex, st_number, st_intdot,
  st_period, st_zero, st_float, st_exponent, st_exponent2, st_exponent3, st_amp, st_istr, st_pipe,
  st_ltgt, st_postaug, st_hex, st_octal, st_binary, st_strint, st_raw_str, st_raw_str_body,
  st_raw_str_escape, st_str_escaped_indented_newline, st_istr_escaped_indented_newline,
  st_indent_str,
}
use crack.Toker.Step.{step, step_in}

Suffix-tail : {q : Bytes} {c : ℕ} {p : Bytes} → Suffix (c ∷ q) p → Suffix q p
Suffix-tail here = there here
Suffix-tail (there s) = there (Suffix-tail s)

no_colon :
    {tk tk' : Toker} {c : ℕ} (o : Option TokenType)
    → Took tk c tk'
    → Colonless (pending tk) ⊎ Written o
    → ((c == b':') ≡ false) ⊎ Written o
no_colon o k (inl h) = inl (subst Colonless k.splits h)
no_colon o k (inr w) = inr w

more_spent :
    {tk tk' : Toker} {c n : ℕ} (buf : Bytes)
    → Took tk c tk'
    → (buf ≡ []) ⊎ (left tk < n)
    → (buf ≡ []) ⊎ (left tk' + 1 < n)
more_spent buf k (inl e) = inl e
more_spent buf k (inr l) = inr (omega (arith, k.fewer))

module _ {text : Bytes} {total : ℕ} where
  Took-Got :
      {tk tk' : Toker} {sc : Scan} {c : ℕ}
      → Took tk c tk'
      → Before text total tk sc
      → Got text total tk.state tk' sc c
  Took-Got k b = record {
    whole = subst (λ p. Suffix p text) k.splits b.at_spot.suffix;
    at_spot = record {
      suffix = Suffix-tail (subst (λ p. Suffix p text) k.splits b.at_spot.suffix);
      clear = (subst Clear k.splits b.at_spot.clear).1;
      lines = omega (arith, k.lines, ap (count b'\n') k.splits, b.at_spot.lines);
    };
    clear = subst Clear k.splits b.at_spot.clear;
    newline = k.newline;
    fits = omega (arith, k.buffered, b.fits);
    spent = omega (arith, k.fewer, b.spent);
  }

  step_in-Post :
      (st : State) {was : Toker} (tk : Toker) (sc : Scan) (c : ℕ)
      → tk.state ≡ st
      → Took was c tk
      → Got text total st tk sc c
      → Locals text total st was sc
      → Post text total (2 * left tk + 2 + rank st) (step_in st tk sc c)
  unfolding step_in
  step_in-Post st_none tk sc c s k g l = step_none-Post tk sc c (omega arith) g
  step_in-Post st_interp_none tk sc c s k g l = step_interp_none-Post tk sc c (omega arith) g
  step_in-Post st_ident tk sc c s k g l = step_ident-Post tk sc c g (omega arith) (omega arith) s
  step_in-Post st_slash tk sc c s k g l = step_slash-Post tk sc c g (omega arith)
  step_in-Post st_minus tk sc c s k g l = step_minus-Post tk sc c g
  step_in-Post st_plus tk sc c s k g l = step_plus-Post tk sc c g
  step_in-Post st_digram tk sc c s k g l =
      step_digram-Post tk sc c g (omega arith) l.0 l.1 (no_colon sc.t3 k l.2) l.3
  step_in-Post st_comment tk sc c s k g l = step_comment-Post tk sc c (omega arith) s g l
  step_in-Post st_ccomment tk sc c s k g l = step_ccomment-Post tk sc c (omega arith) s g
  step_in-Post st_ccomment2 tk sc c s k g l = step_ccomment2-Post tk sc c (omega arith) s g
  step_in-Post st_string tk sc c s k g l = step_string-Post (omega arith) s g l
  step_in-Post st_str_escape_char tk sc c s k g l = step_str_escape_char-Post (omega arith) g l
  step_in-Post st_istr_escape_char tk sc c s k g l = step_istr_escape_char-Post (omega arith) g
  step_in-Post st_str_octal tk sc c s k g l = step_str_octal-Post (omega arith) s g (omega arith) l
  step_in-Post st_istr_octal tk sc c s k g l =
      step_istr_octal-Post (omega arith) s g (omega arith) l
  step_in-Post st_str_hex tk sc c s k g l = step_str_hex-Post (omega arith) s g l
  step_in-Post st_istr_hex tk sc c s k g l = step_istr_hex-Post (omega arith) s g l
  step_in-Post st_number tk sc c s k g l = step_number-Post tk sc c (omega arith) s g
  step_in-Post st_intdot tk sc c s k g l =
      step_intdot-Post tk sc c (omega arith) g (subst (λ p. Suffix (b'.' ∷ p) text) k.splits l)
  step_in-Post st_period tk sc c s k g l = step_period-Post tk sc c g (omega arith)
  step_in-Post st_zero tk sc c s k g l = step_zero-Post tk sc c (omega arith) g (omega arith)
  step_in-Post st_float tk sc c s k g l = step_float-Post tk sc c (omega arith) s g
  step_in-Post st_exponent tk sc c s k g l = step_exponent-Post tk sc c (omega arith) g
  step_in-Post st_exponent2 tk sc c s k g l = step_exponent2-Post tk sc c (omega arith) g
  step_in-Post st_exponent3 tk sc c s k g l = step_exponent3-Post tk sc c (omega arith) s g
  step_in-Post st_amp tk sc c s k g l = step_amp-Post tk sc c g
  step_in-Post st_istr tk sc c s k g l = step_istr-Post (omega arith) s g (more_spent sc.buf k l)
  step_in-Post st_pipe tk sc c s k g l = step_pipe-Post tk sc c g
  step_in-Post st_ltgt tk sc c s k g l = step_ltgt-Post tk sc c g (omega arith) l.0 l.1 l.2 l.3
  step_in-Post st_postaug tk sc c s k g l = step_postaug-Post tk sc c g l.0 l.1
  step_in-Post st_hex tk sc c s k g l = step_hex-Post tk sc c (omega arith) s g
  step_in-Post st_octal tk sc c s k g l = step_octal-Post tk sc c (omega arith) s g
  step_in-Post st_binary tk sc c s k g l = step_binary-Post tk sc c (omega arith) s g
  step_in-Post st_strint tk sc c s k g l = step_strint-Post tk sc c (omega arith) g
  step_in-Post st_raw_str tk sc c s k g l = step_raw_str-Post tk sc c (omega arith) g
  step_in-Post st_raw_str_body tk sc c s k g l = step_raw_str_body-Post (omega arith) s g l
  step_in-Post st_raw_str_escape tk sc c s k g l = step_raw_str_escape-Post (omega arith) g l
  step_in-Post st_str_escaped_indented_newline tk sc c s k g l =
      step_str_newline-Post (omega arith) s g (omega arith) l
  step_in-Post st_istr_escaped_indented_newline tk sc c s k g l =
      step_istr_newline-Post (omega arith) s g (omega arith)
  step_in-Post st_indent_str tk sc c s k g l = step_indent_str-Post tk sc c (omega arith) g

  -- The end of the stream is reported where nothing is left.
  finish-Post :
      {n : ℕ} (st : State) (tk : Toker) (sc : Scan)
      → tk.state ≡ st
      → pending tk ≡ []
      → Before text total tk sc
      → Post text total n (finish_in st (at_end tk) sc)
  unfolding finish_in at_end type_code
  finish-Post st_none tk sc s e b = rw emit-location (
      delivers (record {
        at_spot = b.at_spot;
        ready = refl;
        fits = omega (arith, b.fits, room-le tk.state);
        progress = inl (refl, e);
        located = refl;
      }))
  finish-Post st_comment tk sc s e b = rw emit-location (
      delivers (record {
        at_spot = b.at_spot;
        ready = refl;
        fits = omega (arith, b.fits, room-le tk.state);
        progress = inl (refl, e);
        located = refl;
      }))
  finish-Post st_ident tk sc s e b = rw emit-location (
      delivers (record {
        at_spot = b.at_spot;
        ready = refl;
        fits = omega (arith, b.fits, room-le tk.state);
        progress = inr (refl, omega (arith, ap used s, b.spent));
        located = refl;
      }))
  finish-Post _ tk sc s e b = abort-Post _ _

  pub round-Post :
      (tk : Toker) (sc : Scan)
      → Before text total tk sc
      → Post text total (2 * left tk + rank tk.state) (round tk sc)
  unfolding round step
  round-Post tk sc b = elim (get_char_cases tk) [
    | inl (e, p) ↦ rw (e, round) (finish-Post tk.state tk sc refl p b)
    | inr (c, tk', k) ↦
        rw (k.gives, round)
          (subst (λ z. Post text total (2 * left tk + rank tk.state) (step_in z tk' sc c))
            (sym k.state_is)
            (subst (λ m. Post text total m (step_in tk.state tk' sc c)) (omega (arith, k.fewer))
              (step_in-Post tk.state tk' sc c k.state_is k (Took-Got k b) b.locals)))
  ]
