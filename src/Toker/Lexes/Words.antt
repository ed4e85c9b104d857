-- ===== src/Toker/Lexes/Words.antt =====
-- Identifiers and keywords, from the first character to the one behind the last.
use crack.Prelude.{
  ℕ, zero, suc, ◌+◌, ◌*◌, ◌≤◌, ◌<◌, ◌≡◌, refl, sym, ap, ◌∙◌, Bool, true, false, not, ◌&&◌, ◌||◌,
  ◌==◌, Bytes, [], ◌∷◌, ◌++◌, append-nil, append_assoc, arith, length, length-append, All, ok,
  if◌then◌else◌,
}
use crack.Toker.Chars.{is_space, is_alpha, is_negative}
use crack.Toker.Lexes.{take, round-step, loop-more, loop-token, read_token-loop, begin, Yields}
use crack.Toker.Read.{read_token, read_loop, round}
use crack.Toker.Safety.{pending}
use crack.Toker.Safety.Rules.{unget_char-ok, ungot}
use crack.Toker.Safety.Words.{word_type, emit_ident-Word}
use crack.Toker.Scan.{Scan, fresh, more, put, enter}
use crack.Toker.State.{Toker, State, left, st_none, st_ident, st_strint, st_raw_str, st_indent_str}
use crack.Toker.Step.Base.{step_none}
use crack.Toker.Step.Words.{
  step_ident, is_quote, ends_ident, step_strint, step_raw_str, step_indent_str,
}
use crack.Toker.Step.{step_in}
use mathlib.Core.Path.{subst}

-- The character ends the word.
word_end :
    (f : ℕ) (tk : Toker) (sc : Scan) (n : Toker) (c : ℕ)
    → round tk sc ≡ step_ident n sc c
    → ends_ident c ≡ true
    → length n.putback < 2
    → Yields (read_loop (suc f) tk sc) (word_type sc.buf) sc.buf (c ∷ pending n)
unfolding step_ident
word_end f tk sc n c e h b =
    let w = emit_ident-Word (enter (ungot n c) st_none) sc.buf in
    record {
      after = record (ungot n c) { state = st_none; last_loc = w.last };
      tok = w.tok;
      gives = loop-token f tk sc (e ∙ rw (h, unget_char-ok n c b) w.gives);
      type_is = w.type_is;
      text_is = w.text_is;
      left_is = refl;
      state_is = refl;
    }

word_more :
    (tk : Toker) (sc : Scan) (n : Toker) (b : ℕ)
    → round tk sc ≡ step_ident n sc b
    → ends_ident b ≡ false
    → round tk sc ≡ ok (more n (put sc b))
unfolding step_ident
word_more tk sc n b e h = e ∙ rw h refl

-- The loop inside a word.
word_rest :
    (w : Bytes) (f : ℕ) (tk : Toker) (sc : Scan) (c : ℕ) (rest : Bytes)
    → tk.state ≡ st_ident
    → pending tk ≡ w ++ c ∷ rest
    → All (λ b. ends_ident b ≡ false) w
    → ends_ident c ≡ true
    → length tk.putback ≤ 2
    → length w < f
    → Yields (read_loop f tk sc) (word_type (sc.buf ++ w)) (sc.buf ++ w) (c ∷ rest)
unfolding step_in
word_rest w zero tk sc c rest s p a e b l = absurd (omega arith)
word_rest [] (suc f) tk sc c rest s p a e b l =
    let t = take tk c rest p in
    rw append-nil (
      subst (λ q. Yields (read_loop (suc f) tk sc) (word_type sc.buf) sc.buf (c ∷ q)) t.rest_is
        (word_end f tk sc t.next c (round-step sc st_ident t.took s) e
          (omega (arith, t.took.buffered))))
word_rest (d ∷ w) (suc f) tk sc c rest s p a e b l =
    let t = take tk d (w ++ c ∷ rest) p in
    rw (loop-more f tk sc (word_more tk sc t.next d (round-step sc st_ident t.took s) a.0)) (
      subst (λ q. Yields (read_loop f t.next (put sc d)) (word_type q) q (c ∷ rest))
        (append_assoc sc.buf (d ∷ []) w)
        (word_rest w f t.next (put sc d) c rest (t.took.state_is ∙ s) t.rest_is a.1 e
          (omega (arith, t.took.buffered)) (omega arith)))

-- What may begin a word.
abbrev pub is_start : ℕ → Bool
is_start c = is_alpha c || c == b'_' || is_negative c

-- Where the first character leads: some letters may begin a string token.
abbrev head_state : ℕ → State
head_state c =
    if c == b'i' || c == b'b'
    then st_strint
    else if c == b'r'
    then st_raw_str
    else if c == b'I'
    then st_indent_str
    else st_ident

-- The character behind the first one does not make it a string's prefix.
abbrev pub plain : ℕ → ℕ → Bool
plain c d =
    not ((c == b'i' || c == b'b' || c == b'r' || c == b'I') && is_quote d)
    && not (c == b'I' && d == b'`')

-- The first character of `w ++ c ∷ []`.
abbrev pub first_of : Bytes → ℕ → ℕ
first_of [] c = c
first_of (b ∷ w) c = b

first_round :
    (n : Toker) (c : ℕ)
    → is_start c ≡ true
    → step_in st_none n fresh c ≡ ok (more (enter n (head_state c)) (put fresh c))
unfolding step_in step_none is_space is_alpha is_negative
first_round n c h = ground arith

second_round :
    (n : Toker) (sc : Scan) (c d : ℕ)
    → n.state ≡ head_state c
    → plain c d ≡ true
    → step_in (head_state c) n sc d ≡ step_ident (enter n st_ident) sc d
unfolding step_in step_strint step_raw_str step_indent_str
second_round n sc c d s h = ground arith

-- The second character, and the rest of the word.
after_first :
    (w : Bytes) (f : ℕ) (tk : Toker) (sc : Scan) (a c : ℕ) (rest : Bytes)
    → tk.state ≡ head_state a
    → pending tk ≡ w ++ c ∷ rest
    → All (λ b. ends_ident b ≡ false) w
    → ends_ident c ≡ true
    → plain a (first_of w c) ≡ true
    → length tk.putback ≤ 2
    → length w < f
    → Yields (read_loop f tk sc) (word_type (sc.buf ++ w)) (sc.buf ++ w) (c ∷ rest)
after_first w zero tk sc a c rest s p g e q b l = absurd (omega arith)
after_first [] (suc f) tk sc a c rest s p g e q b l =
    let t = take tk c rest p in
    rw append-nil (
      subst (λ r. Yields (read_loop (suc f) tk sc) (word_type sc.buf) sc.buf (c ∷ r)) t.rest_is
        (word_end f tk sc (enter t.next st_ident) c
          (round-step sc (head_state a) t.took s
            ∙ second_round t.next sc a c (t.took.state_is ∙ s) q)
          e (omega (arith, t.took.buffered))))
after_first (d ∷ w) (suc f) tk sc a c rest s p g e q b l =
    let t = take tk d (w ++ c ∷ rest) p in
    let n : Toker = enter t.next st_ident in
    rw
      (loop-more f tk sc (
        word_more tk sc n d
          (round-step sc (head_state a) t.took s
            ∙ second_round t.next sc a d (t.took.state_is ∙ s) q)
          g.0))
      (subst (λ r. Yields (read_loop f n (put sc d)) (word_type r) r (c ∷ rest))
        (append_assoc sc.buf (d ∷ []) w)
        (word_rest w f n (put sc d) c rest refl t.rest_is g.1 e (omega (arith, t.took.buffered))
          (omega arith)))

module _ (a : ℕ) (w : Bytes) (c : ℕ) (rest : Bytes) where
  in_loop :
      (tk : Toker) (f : ℕ)
      → tk.state ≡ st_none
      → length tk.putback ≤ 2
      → is_start a ≡ true
      → All (λ b. ends_ident b ≡ false) w
      → ends_ident c ≡ true
      → plain a (first_of w c) ≡ true
      → pending tk ≡ a ∷ (w ++ c ∷ rest)
      → length w < f
      → Yields (read_loop (suc f) tk fresh) (word_type (a ∷ w)) (a ∷ w) (c ∷ rest)
  in_loop tk f s b h g e q p l =
      let t = take tk a (w ++ c ∷ rest) p in
      rw (loop-more f tk fresh (round-step fresh st_none t.took s ∙ first_round t.next a h)) (
        after_first w f (enter t.next (head_state a)) (put fresh a) a c rest refl t.rest_is g e q
          (omega (arith, t.took.buffered)) l)

-- Between tokens, with at most two characters in the put-back buffer, a word is read whole: a letter,
-- `_` or a byte of 128 or more, then all up to the first character that ends identifiers. The token
-- has the word as its text, and the word's keyword as its type or else that of an identifier, and
-- exactly what follows the word is left. The word may begin with the `i`, `b`, `r` or `I` of a string
-- token if no quote, and for `I` no back quote, comes next.
pub reads_word :
    (tk : Toker) (a : ℕ) (w : Bytes) (c : ℕ) (rest : Bytes)
    → tk.state ≡ st_none
    → length tk.putback ≤ 2
    → is_start a ≡ true
    → All (λ b. ends_ident b ≡ false) w
    → ends_ident c ≡ true
    → plain a (first_of w c) ≡ true
    → pending tk ≡ a ∷ (w ++ c ∷ rest)
    → Yields (read_token tk) (word_type (a ∷ w)) (a ∷ w) (c ∷ rest)
reads_word tk a w c rest s b h g e q p =
    let n : length tk.putback + length tk.src ≡ suc (length w + suc (length rest)) =
      sym (length-append tk.putback tk.src) ∙ ap length p ∙ ap suc (length-append w (c ∷ rest)) in
    rw (read_token-loop tk s) (
      subst (λ m. Yields (read_loop m (begin tk) fresh) (word_type (a ∷ w)) (a ∷ w) (c ∷ rest))
        (omega arith) (in_loop a w c rest (begin tk) (2 * left tk + 1) s b h g e q p (omega arith)))
