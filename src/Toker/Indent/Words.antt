-- ===== src/Toker/Indent/Words.antt =====
-- The characters of a string that are no spaces and tabs, before and after it is reindented.
use crack.Prelude.{
  ℕ, zero, suc, ◌+◌, ◌≡◌, inl, inr, refl, ap, ◌∙◌, Bool, true, false, ◌||◌, ◌==◌, Bool-cases, Bytes,
  [], ◌∷◌, ◌++◌, append-nil, append_assoc, arith, if◌then◌else◌,
}
use crack.Toker.Indent.{fix_loop, fix_indentation, spaces, less_indent, to_tab, reindent}
use crack.Toker.State.{Toker}

abbrev pub is_space_or_tab : ℕ → Bool
is_space_or_tab c = c == b' ' || c == b'\t'

-- A text without its spaces and tabs.
abbrev pub inked : Bytes → Bytes
inked [] = []
inked (c ∷ cs) = if is_space_or_tab c then inked cs else c ∷ inked cs

inked-append : (a b : Bytes) → inked (a ++ b) ≡ inked a ++ inked b
inked-append [] b = refl
inked-append (c ∷ a) b = elim (Bool-cases (is_space_or_tab c)) [
  | inl h ↦ rw h (inked-append a b)
  | inr h ↦ rw h (ap (◌∷◌ c) (inked-append a b))
]

inked-spaces : (n : ℕ) → inked (spaces n) ≡ []
unfolding spaces
inked-spaces zero = refl
inked-spaces (suc n) = inked-spaces n

-- The newline that a prefix has still to write.
abbrev owed : Bool → Bytes → Bytes
owed p rest = if p then b'\n' ∷ rest else rest

inked-concat :
    (a : Bytes) (c : ℕ) (rest : Bytes)
    → is_space_or_tab c ≡ false
    → inked (a ++ c ∷ []) ++ rest ≡ inked a ++ c ∷ rest
inked-concat a c rest h = rw (inked-append a (c ∷ [])) (rw h (append_assoc (inked a) (c ∷ []) rest))

inked_word :
    (out : Bytes) (n c : ℕ) (rest : Bytes)
    → is_space_or_tab c ≡ false
    → inked (((out ++ b'\n' ∷ []) ++ spaces n) ++ c ∷ []) ++ rest ≡ inked out ++ b'\n' ∷ c ∷ rest
inked_word out n c rest h =
    inked-concat ((out ++ b'\n' ∷ []) ++ spaces n) c rest h
    ∙ rw (inked-append (out ++ b'\n' ∷ []) (spaces n), inked-spaces, append-nil)
        (inked-concat out b'\n' (c ∷ rest) refl)

-- Inside a line a space or tab is kept, and drops out of both sides.
inked_blank :
    (out : Bytes) (c : ℕ) (rest : Bytes)
    → is_space_or_tab c ≡ true
    → inked (out ++ c ∷ []) ++ rest ≡ inked out ++ rest
inked_blank out c rest h = rw (inked-append out (c ∷ [])) (rw (h, append-nil) refl)

inked-fix_loop :
    (low : ℕ) (cs out : Bytes) (p : Bool) (i : ℕ)
    → inked (fix_loop low out cs p i) ≡ inked out ++ owed p (inked cs)
unfolding fix_loop
inked-fix_loop low [] out true i =
    rw (inked-append (out ++ b'\n' ∷ []) (spaces (less_indent low i)), inked-spaces)
      (inked-concat out b'\n' [] refl)
inked-fix_loop low [] out false i = rw append-nil refl
inked-fix_loop low (c ∷ cs) out true i = ground (
  arith,
  inked-fix_loop low cs (out ++ b'\n' ∷ []) true 0,
  inked-concat out b'\n' (b'\n' ∷ inked cs) refl,
  inked-fix_loop low cs out true (i + 1),
  inked-fix_loop low cs out true (to_tab i),
  inked-fix_loop low cs (((out ++ b'\n' ∷ []) ++ spaces (less_indent low i)) ++ c ∷ []) false
      (less_indent low i),
  inked_word out (less_indent low i) c (inked cs),
)
inked-fix_loop low (c ∷ cs) out false i = ground (
  arith,
  inked-fix_loop low cs out true 0,
  inked-fix_loop low cs (out ++ c ∷ []) false i,
  inked-concat out c (inked cs),
  inked_blank out c (inked cs),
)

-- Without its spaces and tabs, a text is what it was before fixIndentation, every newline in its
-- place, whatever the smallest indentation. So it is for reindent, which finds that one itself.
pub inked-reindent :
    (tk : Toker) (val : Bytes)
    → (low : ℕ)
    → (inked (fix_indentation low val) ≡ inked val) × (inked (reindent tk val).1 ≡ inked val)
unfolding fix_indentation reindent
inked-reindent tk val low = (inked-fix_loop low val [] false 0, inked-fix_loop _ val [] false 0)
