-- ===== src/Toker/Safety/Words.antt =====
-- Identifiers, keywords and the prefixes of string tokens.
use crack.Location.{Location}
use crack.Prelude.{
  ℕ, ◌+◌, ◌*◌, ◌≤◌, ◌≡◌, refl, Bool, true, false, Bytes, Option, some, none, arith, List, [], ◌∷◌,
  ◌==◌, ◌&&◌, ok, All,
}
use crack.Token.{TokenType, Token, ◌is◌, type_code, end, ident}
use crack.Toker.Location.{location, get_location-location}
use crack.Toker.Read.{may_read}
use crack.Toker.Safety.Rules.{pick, emit_here, go_on, back, core, ungot, token_back, room-le}
use crack.Toker.Safety.{Got, Post, used, delivers}
use crack.Toker.Scan.{Scan, token, enter}
use crack.Toker.State.{
  Toker, State, left, init_indent, st_ident, st_strint, st_raw_str, st_indent_str,
}
use crack.Toker.Step.Words.{
  keywords, find_keyword, fix_ident, emit_ident, step_ident, step_strint, step_raw_str,
  step_indent_str, indent_case, raw_case, is_quote, ends_ident,
}

-- No keyword is the end of the stream.
find_keyword-ne-end :
    (text : Bytes) (ks : List (Bytes × TokenType)) (t : TokenType)
    → All (λ (k : Bytes × TokenType). (k.1 is end) ≡ false) ks
    → find_keyword text ks ≡ some t
    → (t is end) ≡ false
unfolding find_keyword
find_keyword-ne-end text [] t h e = cc
find_keyword-ne-end text ((k, u) ∷ ks) t h e = ground (arith, find_keyword-ne-end text ks t h.1)

keywords-ne-end : All (λ (k : Bytes × TokenType). (k.1 is end) ≡ false) keywords
unfolding type_code
keywords-ne-end = ground arith

-- The type of a word: a keyword's own, or an identifier.
abbrev pub type_found : Option TokenType → TokenType
type_found (some t) = t
type_found none = ident

abbrev pub word_type : Bytes → TokenType
word_type text = type_found (find_keyword text keywords)

-- What an identifier or keyword gives.
pub record Word (tk : Toker) (text : Bytes) : Type 0 where
  pub last : Location
  pub tok : Token
  pub gives : emit_ident tk text ≡ ok (token (record tk { last_loc = last }) tok)
  pub ne_end : (tok.type is end) ≡ false
  pub on_line : tok.loc.line_number ≡ tk.current_line
  pub type_is : tok.type ≡ word_type text
  pub text_is : tok.text ≡ text

Word-type_found :
    (tk : Toker) (text : Bytes) (o : Option TokenType)
    → find_keyword text keywords ≡ o
    → Word tk text
unfolding emit_ident fix_ident type_code
Word-type_found tk text (some t) e = record {
  last = location tk;
  tok = record { type = t; text = text; loc = location tk };
  gives = rw (fix_ident, e) (simp get_location-location refl);
  ne_end = find_keyword-ne-end text keywords t keywords-ne-end e;
  on_line = refl;
  type_is = rw e refl;
  text_is = refl;
}
Word-type_found tk text none e = record {
  last = location (record tk { last_loc = location tk });
  tok = record { type = ident; text = text; loc = location (record tk { last_loc = location tk }) };
  gives = rw (fix_ident, e) (simp get_location-location refl);
  ne_end = refl;
  on_line = refl;
  type_is = rw e refl;
  text_is = refl;
}

pub emit_ident-Word : (tk : Toker) (text : Bytes) → Word tk text
emit_ident-Word tk text = Word-type_found tk text _ refl

module _ {text : Bytes} {total : ℕ} where
  again :
      {st : State} {tk : Toker} {sc : Scan} {c : ℕ} (to : State)
      → Got text total st tk sc c
      → Got text total st (enter tk to) sc c
  again to g = record {
    whole = g.whole;
    at_spot = g.at_spot;
    clear = g.clear;
    newline = g.newline;
    fits = g.fits;
    spent = g.spent;
  }

  module _ {n : ℕ} {st : State} (tk : Toker) (sc : Scan) (c : ℕ) (g : Got text total st tk sc c)
      (u : 1 ≤ used st) (enough : 2 * left tk + 2 ≤ n) where
    word_back :
        (tk' : Toker)
        → core tk' ≡ core (ungot tk c)
        → may_read tk'.state ≡ true
        → Post text total n (emit_ident tk' sc.buf)
    word_back tk' same r =
        let w = emit_ident-Word tk' sc.buf in
        rw (w.gives)
          (delivers (token_back g _ _ same r w.ne_end w.on_line (omega (arith, g.spent))))

    pub step_ident-Post : tk.state ≡ st_ident → Post text total n (step_ident tk sc c)
    unfolding step_ident
    step_ident-Post s =
        pick (ends_ident c) (λ _. back g _ _ refl (word_back _ refl refl))
          λ _. go_on g _ _ refl (rw s (omega (arith, room-le st))) (rw s tt) enough

  module _ {n : ℕ} {st : State} (tk : Toker) (sc : Scan) (c : ℕ) (g : Got text total st tk sc c)
      (u : 1 ≤ used st) (enough : 2 * left tk + 2 ≤ n) where
    indent_case-Post : (indented : Bool) → Post text total n (indent_case indented tk sc c)
    unfolding indent_case type_code init_indent
    indent_case-Post indented =
        pick (is_quote c) (λ _. go_on g _ _ refl (omega (arith, room-le st)) (refl, tt) enough)
          λ _.
            pick (indented && c == b'`') (λ _. emit_here g _ _ _ refl refl refl)
              λ _. step_ident-Post (enter tk st_ident) sc c (again st_ident g) u enough refl

    raw_case-Post : Post text total n (raw_case tk sc c)
    unfolding raw_case
    raw_case-Post =
        pick (is_quote c) (λ _. go_on g _ _ refl (omega (arith, room-le st)) tt enough)
          λ _. indent_case-Post false

  module _ {n : ℕ} (tk : Toker) (sc : Scan) (c : ℕ) (enough : 2 * left tk + 2 ≤ n) where
    pub step_strint-Post :
        Got text total st_strint tk sc c → Post text total n (step_strint tk sc c)
    unfolding step_strint type_code
    step_strint-Post g =
        pick (is_quote c) (λ _. go_on g _ _ refl (omega arith) (refl, tt) enough)
          λ _. raw_case-Post tk sc c g (omega arith) enough

    pub step_raw_str-Post :
        Got text total st_raw_str tk sc c → Post text total n (step_raw_str tk sc c)
    unfolding step_raw_str
    step_raw_str-Post g = raw_case-Post tk sc c g (omega arith) enough

    pub step_indent_str-Post :
        Got text total st_indent_str tk sc c → Post text total n (step_indent_str tk sc c)
    unfolding step_indent_str
    step_indent_str-Post g = indent_case-Post tk sc c g (omega arith) enough true
