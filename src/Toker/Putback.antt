-- ===== src/Toker/Putback.antt =====
-- getChar and ungetChar against each other (parser/Toker.cc, lines 33 to 59).
use crack.Prelude.{
  ℕ, ◌≤◌, ◌<◌, ◌≡◌, refl, Bytes, [], ◌∷◌, ◌++◌, some, arith, ◌==◌, length, Outcome, ok,
  if◌then◌else◌,
}
use crack.Toker.Safety.{pending}
use mathlib.Core.Path.{subst}
use crack.Toker.Safety.Rules.{ungot, unget_char-ok}
use crack.Toker.State.{Toker, get_char, unget_char, next_char, advance}

-- The tokenizer where it was, but for the start column behind a newline.
pub record Restored (tk : Toker) (c : ℕ) (r : Outcome Toker) : Type 0 where
  pub back : Toker
  pub gives : r ≡ ok back
  pub same_text : pending back ≡ pending tk
  pub same_line : back.current_line ≡ tk.current_line
  pub same_end : back.current_end_col ≡ tk.current_end_col
  pub start : back.current_start_col ≡ (if c == b'\n' then 1 else tk.current_start_col)
  pub same_state : back.state ≡ tk.state

restores :
    (tk : Toker) (c : ℕ) (pb rest : Bytes)
    → length pb < 2
    → pending tk ≡ c ∷ (pb ++ rest)
    → Restored tk c (unget_char (advance (record tk { putback = pb; src = rest }) c) c)
unfolding advance
restores tk c pb rest h p =
    let n : Toker = advance (record tk { putback = pb; src = rest }) c in
    let held : length n.putback < 2 = ground arith in
    record {
      back = ungot n c;
      gives = unget_char-ok n c held;
      same_text = ground arith;
      same_line = ground arith;
      same_end = ground arith;
      start = ground arith;
      same_state = ground arith;
    }

-- What getChar gave is known.
given :
    (tk : Toker) (c : ℕ) (tk' : Toker) (b : ℕ) (n : Toker)
    → get_char tk ≡ some (c, tk')
    → get_char tk ≡ some (b, n)
    → Restored tk b (unget_char n b)
    → Restored tk c (unget_char tk' c)
given tk c tk' b n e f r =
    let same : (b, n) ≡ (c, tk') = cc in
    subst (λ (z : ℕ × Toker). Restored tk z.0 (unget_char z.1 z.0)) same r

at_hand :
    (tk : Toker) (c : ℕ) (tk' : Toker) (pb rest : Bytes)
    → tk.putback ≡ pb
    → tk.src ≡ rest
    → length pb ≤ 2
    → get_char tk ≡ some (c, tk')
    → Restored tk c (unget_char tk' c)
unfolding get_char next_char
at_hand tk c tk' [] [] p q h e = cc
at_hand tk c tk' [] (b ∷ rest) p q h e =
    given tk c tk' b _ e (rw (p, q, get_char, next_char) refl)
      (restores tk b [] rest (omega arith) (rw (p, q) refl))
at_hand tk c tk' (b ∷ pb) rest p q h e =
    given tk c tk' b _ e (rw (p, q, get_char, next_char) refl)
      (restores tk b pb rest (omega arith) (rw (p, q) refl))

-- With at most two characters in the put-back buffer, to put the character that was read back works,
-- and leaves the text to read, the line, the end column and the state as they were before the read.
-- The start column is as it was too, unless the character is a newline, which leaves it at 1.
pub unget_char-get_char :
    (tk : Toker) (c : ℕ) (tk' : Toker)
    → length tk.putback ≤ 2
    → get_char tk ≡ some (c, tk')
    → Restored tk c (unget_char tk' c)
unget_char-get_char tk c tk' h e = at_hand tk c tk' tk.putback tk.src refl refl h e
