-- ===== src/Modules/Names/Splits.antt =====
-- Splitting a name and joining the parts again.
use crack.Modules.Names.{stay, move, push_front, parse_from, parse_canonical_name, join_name}
use crack.Modules.Names.Parts.{stays, grown}
use mathlib.Core.Path.{subst}
use crack.Prelude.{
  ℕ, zero, suc, ◌==◌, Bool, true, false, if◌then◌else◌, List, [], ◌∷◌, ◌++◌, Bytes, Outcome, ok,
  parse_error, fault, assertion, logic_error, uninitialised, null_pointer, uncaught, out_of_fuel,
  Bool-cases, inl, inr, ◌≡◌, refl, ap, arith,
}

-- Whether a bracket is closed that was not opened, from a level of brackets on.
unfoldable pub closes_early : ℕ → Bytes → Bool
closes_early k [] = false
closes_early zero (c ∷ cs) =
    if c == b']' then true else closes_early (if c == b'[' then 1 else 0) cs
closes_early (suc k) (c ∷ cs) =
    closes_early (if c == b'[' then suc (suc k) else if c == b']' then k else suc k) cs

-- The outcome of splitting a name.
pub data Split (name : Bytes) (early : Bool) : Outcome (List Bytes) → Type 0 where
  parts :
      {p : Bytes} {ps : List Bytes}
      → early ≡ false
      → join_name (p ∷ ps) ≡ name
      → Split name early (ok (p ∷ ps))
  stray : early ≡ true → Split name early (fault assertion)

after_dot :
    (segment cs : Bytes) (early : Bool) (r : Outcome (List Bytes))
    → Split cs early r
    → Split (segment ++ b'.' ∷ cs) early (push_front segment r)
unfolding join_name
after_dot segment cs early (ok (p ∷ ps)) (parts e h) = parts e (ap (λ t. segment ++ b'.' ∷ t) h)
after_dot segment cs early (ok []) h = elim h [ ]
after_dot segment cs early (fault assertion) (stray e) = stray e
after_dot segment cs early (fault logic_error) h = elim h [ ]
after_dot segment cs early (fault uninitialised) h = elim h [ ]
after_dot segment cs early (fault null_pointer) h = elim h [ ]
after_dot segment cs early (fault uncaught) h = elim h [ ]
after_dot segment cs early (fault out_of_fuel) h = elim h [ ]
after_dot segment cs early (parse_error l m) h = elim h [ ]

split_next :
    (c : ℕ) (cs : Bytes) (k j : ℕ) (segment : Bytes)
    → move k c ≡ stay j
    → closes_early k (c ∷ cs) ≡ closes_early j cs
    → Split ((segment ++ c ∷ []) ++ cs) (closes_early j cs) (parse_from cs j (segment ++ c ∷ []))
    → Split (segment ++ c ∷ cs) (closes_early k (c ∷ cs)) (parse_from (c ∷ cs) k segment)
split_next c cs k j segment h e after =
    rw (e, stays c cs k j segment h)
      (subst (λ t. Split t (closes_early j cs) (parse_from cs j (segment ++ c ∷ [])))
        (grown segment cs c) after)

-- The level behind a character that is no dot and closes no bracket too many.
abbrev level : ℕ → ℕ → ℕ
level zero c = if c == b'[' then 1 else 0
level (suc k) c = if c == b'[' then suc (suc k) else if c == b']' then k else suc k

move-level :
    (k c : ℕ)
    → (k ≡ 0 → (c == b'.') ≡ false)
    → (k ≡ 0 → (c == b']') ≡ false)
    → move k c ≡ stay (level k c)
unfolding move
move-level zero c h j = ground (arith, h refl, j refl)
move-level (suc k) c h j = ground arith

closes_level :
    (k c : ℕ) (cs : Bytes)
    → (k ≡ 0 → (c == b']') ≡ false)
    → closes_early k (c ∷ cs) ≡ closes_early (level k c) cs
unfolding closes_early
closes_level zero c cs j = rw (j refl) refl
closes_level (suc k) c cs j = refl

ended :
    (segment : Bytes) (k : ℕ) → Split (segment ++ []) (closes_early k []) (parse_from [] k segment)
unfolding parse_from closes_early join_name
ended segment k = parts refl refl

dot_first :
    (segment cs : Bytes)
    → Split cs (closes_early 0 cs) (parse_from cs 0 [])
    → Split (segment ++ b'.' ∷ cs) (closes_early 0 (b'.' ∷ cs)) (parse_from (b'.' ∷ cs) 0 segment)
unfolding parse_from closes_early
dot_first segment cs h = after_dot segment cs (closes_early 0 cs) (parse_from cs 0 []) h

stray_first :
    (segment cs : Bytes)
    → Split (segment ++ b']' ∷ cs) (closes_early 0 (b']' ∷ cs)) (parse_from (b']' ∷ cs) 0 segment)
unfolding parse_from closes_early
stray_first segment cs = stray refl

split_at :
    (cs : Bytes) (k : ℕ) (segment : Bytes)
    → Split (segment ++ cs) (closes_early k cs) (parse_from cs k segment)
split_at [] k segment = ended segment k
split_at (c ∷ cs) zero segment = elim (Bool-cases (c == b'.')) [
  | inl e ↦ let dot : c ≡ b'.' = ground arith in rw dot (dot_first segment cs (split_at cs 0 []))
  | inr e ↦ elim (Bool-cases (c == b']')) [
    | inl g ↦ let bracket : c ≡ b']' = ground arith in rw bracket (stray_first segment cs)
    | inr g ↦
        split_next c cs 0 (level 0 c) segment (move-level 0 c (λ z. e) (λ z. g))
          (closes_level 0 c cs (λ z. g)) (split_at cs (level 0 c) (segment ++ c ∷ []))
  ]
]
split_at (c ∷ cs) (suc k) segment =
    split_next c cs (suc k) (level (suc k) c) segment
      (move-level (suc k) c (λ z. absurd (omega arith)) (λ z. absurd (omega arith)))
      (closes_level (suc k) c cs (λ z. absurd (omega arith)))
      (split_at cs (level (suc k) c) (segment ++ c ∷ []))

-- Splitting a name fails its assertion exactly if a bracket is closed in it that was not opened; else
-- it gives parts, one at least, that are joined to the name.
pub parse_canonical_name-Split :
    (name : Bytes) → Split name (closes_early 0 name) (parse_canonical_name name)
unfolding parse_canonical_name
parse_canonical_name-Split name = split_at name 0 []
