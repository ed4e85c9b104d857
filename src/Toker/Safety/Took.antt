-- ===== src/Toker/Safety/Took.antt =====
-- What getChar does to the text that is left, and to the line count.
use crack.Prelude.{
  ap, ℕ, ◌+◌, ◌-◌, ◌≤◌, ◌≡◌, ◌⊎◌, inl, inr, refl, false, Bytes, [], ◌∷◌, ◌++◌, some, none, arith,
  ◌==◌, length, count,
}
use crack.Toker.Safety.{pending}
use crack.Toker.State.{Toker, get_char, next_char, advance, left}

-- A character `c` was taken off the text of `tk`, and `tk'` is what is left.
pub record Took (tk : Toker) (c : ℕ) (tk' : Toker) : Type 0 where
  pub gives : get_char tk ≡ some (c, tk')
  pub splits : pending tk ≡ c ∷ pending tk'
  pub state_is : tk'.state ≡ tk.state
  pub buffered : length tk'.putback ≡ length tk.putback - 1
  pub fewer : left tk ≡ left tk' + 1
  pub lines :
      tk'.current_line + count b'\n' (pending tk') ≡ tk.current_line + count b'\n' (c ∷ pending tk')
  pub newline : ((c == b'\n') ≡ false) ⊎ (1 ≤ tk'.current_line)

advanced :
    (tk : Toker) (c : ℕ) (pb rest : Bytes)
    → get_char tk ≡ some (c, advance (record tk { putback = pb; src = rest }) c)
    → pending tk ≡ c ∷ (pb ++ rest)
    → length pb ≡ length tk.putback - 1
    → left tk ≡ length pb + length rest + 1
    → Took tk c (advance (record tk { putback = pb; src = rest }) c)
unfolding advance
advanced tk c pb rest e s l f = record {
  gives = e;
  splits = ground (arith, s);
  state_is = ground arith;
  buffered = ground (arith, l);
  fewer = ground (arith, f);
  lines = ground arith;
  newline = ground arith;
}

take_cases :
    (tk : Toker) (pb rest : Bytes)
    → tk.putback ≡ pb
    → tk.src ≡ rest
    → ((get_char tk ≡ none) × (pending tk ≡ [])) ⊎ ((c : ℕ) × (tk' : Toker) × Took tk c tk')
unfolding get_char next_char
take_cases tk [] [] p q = inl (rw (p, q, get_char, next_char) refl, rw (p, q) refl)
take_cases tk [] (c ∷ rest) p q = inr (
  c,
  _,
  advanced tk c [] rest (rw (p, q, get_char, next_char) refl) (rw (p, q) refl)
      (omega (arith, ap (length {0}) p)) (omega (arith, ap (length {0}) p, ap (length {0}) q)),
)
take_cases tk (c ∷ pb) rest p q = inr (
  c,
  _,
  advanced tk c pb rest (rw (p, q, get_char, next_char) refl) (rw (p, q) refl)
      (omega (arith, ap (length {0}) p)) (omega (arith, ap (length {0}) p, ap (length {0}) q)),
)

pub get_char_cases :
    (tk : Toker)
    → ((get_char tk ≡ none) × (pending tk ≡ [])) ⊎ ((c : ℕ) × (tk' : Toker) × Took tk c tk')
get_char_cases tk = take_cases tk _ _ refl refl
