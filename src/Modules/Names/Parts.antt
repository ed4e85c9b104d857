-- ===== src/Modules/Names/Parts.antt =====
-- Joining parts and splitting the name again.
use crack.Modules.Names.{
  stay, move, push_front, parse_from, parse_canonical_name, join_rest, join_name,
}
use crack.Prelude.{
  ℕ, zero, suc, List, [], ◌∷◌, ◌++◌, append-nil, append_assoc, Bytes, ok, ◌≡◌, ◌≢◌, refl, sym, ap,
  ◌∙◌, arith,
}

-- Text between two brackets, in which brackets are paired.
pub data Inner : Bytes → Type 0 where
  nothing : Inner []
  other : {cs : Bytes} (c : ℕ) → c ≢ b'[' → c ≢ b']' → Inner cs → Inner (c ∷ cs)
  pair : {cs ds : Bytes} → Inner cs → Inner ds → Inner (b'[' ∷ (cs ++ b']' ∷ ds))

-- A part of a name: its dots are in brackets, and those are paired.
pub data Part : Bytes → Type 0 where
  no_more : Part []
  letter : {cs : Bytes} (c : ℕ) → c ≢ b'.' → c ≢ b'[' → c ≢ b']' → Part cs → Part (c ∷ cs)
  bracketed : {cs ds : Bytes} → Inner cs → Part ds → Part (b'[' ∷ (cs ++ b']' ∷ ds))

pub data Parts : List Bytes → Type 0 where
  last : {p : Bytes} → Part p → Parts (p ∷ [])
  more : {p : Bytes} {ps : List Bytes} → Part p → Parts ps → Parts (p ∷ ps)

move_other : (k c : ℕ) → c ≢ b'[' → c ≢ b']' → move (suc k) c ≡ stay (suc k)
unfolding move
move_other k c h j = ground arith

move_letter : (c : ℕ) → c ≢ b'.' → c ≢ b'[' → c ≢ b']' → move 0 c ≡ stay 0
unfolding move
move_letter c h j k = ground arith

pub stays :
    (c : ℕ) (cs : Bytes) (k j : ℕ) (segment : Bytes)
    → move k c ≡ stay j
    → parse_from (c ∷ cs) k segment ≡ parse_from cs j (segment ++ c ∷ [])
unfolding parse_from
stays c cs k j segment h = rw (parse_from, h) refl

-- The segment grows by the text that is passed.
pub grown : (segment ds : Bytes) (c : ℕ) → (segment ++ c ∷ []) ++ ds ≡ segment ++ c ∷ ds
grown segment ds c = append_assoc segment (c ∷ []) ds

opens : (k : ℕ) → move k b'[' ≡ stay (suc k)
unfolding move
opens zero = refl
opens (suc k) = refl

closes : (k : ℕ) → move (suc k) b']' ≡ stay k
unfolding move
closes k = refl

-- A pair of brackets, once the text in it is known to pass.
wrapped :
    (k : ℕ) (segment cs ds rest : Bytes)
    → ((s r : Bytes) → parse_from (cs ++ r) (suc k) s ≡ parse_from r (suc k) (s ++ cs))
    → parse_from ((b'[' ∷ (cs ++ b']' ∷ ds)) ++ rest) k segment
      ≡ parse_from (ds ++ rest) k (((segment ++ b'[' ∷ []) ++ cs) ++ b']' ∷ [])
wrapped k segment cs ds rest inner =
    stays b'[' ((cs ++ b']' ∷ ds) ++ rest) k (suc k) segment (opens k)
    ∙ ap (λ t. parse_from t (suc k) (segment ++ b'[' ∷ [])) (append_assoc cs (b']' ∷ ds) rest)
    ∙ inner (segment ++ b'[' ∷ []) (b']' ∷ ds ++ rest)
    ∙ stays b']' (ds ++ rest) (suc k) k ((segment ++ b'[' ∷ []) ++ cs) (closes k)

regrouped :
    (segment cs ds : Bytes)
    → (((segment ++ b'[' ∷ []) ++ cs) ++ b']' ∷ []) ++ ds ≡ segment ++ b'[' ∷ (cs ++ b']' ∷ ds)
regrouped segment cs ds =
    grown ((segment ++ b'[' ∷ []) ++ cs) ds b']'
    ∙ append_assoc (segment ++ b'[' ∷ []) cs (b']' ∷ ds)
    ∙ grown segment (cs ++ b']' ∷ ds) b'['

passes-Inner :
    {cs : Bytes} (k : ℕ) (segment rest : Bytes)
    → Inner cs
    → parse_from (cs ++ rest) (suc k) segment ≡ parse_from rest (suc k) (segment ++ cs)
passes-Inner k segment rest nothing = ap (parse_from rest (suc k)) (sym (append-nil segment))
passes-Inner k segment rest (other {cs = cs} c h j inner) =
    stays c (cs ++ rest) (suc k) (suc k) segment (move_other k c h j)
    ∙ passes-Inner k (segment ++ c ∷ []) rest inner
    ∙ ap (parse_from rest (suc k)) (grown segment cs c)
passes-Inner k segment rest (pair {cs = cs} {ds = ds} inner after) =
    wrapped (suc k) segment cs ds rest (λ s r. passes-Inner (suc k) s r inner)
    ∙ passes-Inner k (((segment ++ b'[' ∷ []) ++ cs) ++ b']' ∷ []) rest after
    ∙ ap (parse_from rest (suc k)) (regrouped segment cs ds)

passes :
    {p : Bytes} (segment rest : Bytes)
    → Part p
    → parse_from (p ++ rest) 0 segment ≡ parse_from rest 0 (segment ++ p)
passes segment rest no_more = ap (parse_from rest 0) (sym (append-nil segment))
passes segment rest (letter {cs = cs} c h j k part) =
    stays c (cs ++ rest) 0 0 segment (move_letter c h j k)
    ∙ passes (segment ++ c ∷ []) rest part
    ∙ ap (parse_from rest 0) (grown segment cs c)
passes segment rest (bracketed {cs = cs} {ds = ds} inner part) =
    wrapped 0 segment cs ds rest (λ s r. passes-Inner 0 s r inner)
    ∙ passes (((segment ++ b'[' ∷ []) ++ cs) ++ b']' ∷ []) rest part
    ∙ ap (parse_from rest 0) (regrouped segment cs ds)

parse_rest :
    (p : Bytes) (ps : List Bytes)
    → Parts (p ∷ ps)
    → parse_from (p ++ join_rest ps) 0 [] ≡ ok (p ∷ ps)
unfolding parse_from join_rest
parse_rest p [] (last part) = passes [] [] part
parse_rest p (q ∷ ps) (more part parts) =
    passes [] (b'.' ∷ q ++ join_rest ps) part ∙ ap (push_front p) (parse_rest q ps parts)
parse_rest p [] (more part parts) = elim parts [ ]

-- Parts in which dots stand in brackets only, and brackets are paired, are joined to a name that is
-- split into them.
pub parse_canonical_name-join_name :
    (parts : List Bytes) → Parts parts → parse_canonical_name (join_name parts) ≡ ok parts
unfolding parse_canonical_name join_name
parse_canonical_name-join_name (p ∷ ps) h = parse_rest p ps h
parse_canonical_name-join_name [] h = elim h [ ]
