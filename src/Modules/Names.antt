-- ===== src/Modules/Names.antt =====
-- parseCanonicalName and joinName (model/ModuleDef.cc). A segment is kept as its bytes instead of the
-- two indices of its ends.
pub mod Parts
pub mod Splits
use mathlib.Core.Path.{subst}
use crack.Prelude.{
  ℕ, zero, suc, ◌+◌, ◌==◌, Bool, true, false, if◌then◌else◌, List, [], ◌∷◌, ◌++◌, append-nil,
  append_assoc, Bytes, Outcome, ok, parse_error, fault, assertion, logic_error, uninitialised,
  out_of_fuel, Bool-cases, inl, inr, ◌≡◌, ◌≢◌, refl, sym, ap, ◌∙◌, arith,
}

-- What a character does at a level of brackets: end the segment, belong to it and lead to a level, or
-- fail the assertion.
pub data Move : Type 0 where
  split invalid : Move
  stay : ℕ → Move

unfoldable pub move : ℕ → ℕ → Move
move zero c =
    if c == b'.' then split else if c == b'[' then stay 1 else if c == b']' then invalid else stay 0
move (suc k) c =
    if c == b'[' then stay (suc (suc k)) else if c == b']' then stay k else stay (suc k)

abbrev pub push_front : Bytes → Outcome (List Bytes) → Outcome (List Bytes)
push_front p (ok ps) = ok (p ∷ ps)
push_front p (parse_error l msg) = parse_error l msg
push_front p (fault e) = fault e

unfoldable pub parse_from : Bytes → ℕ → Bytes → Outcome (List Bytes)
unfolding move
parse_from [] nested segment = ok (segment ∷ [])
parse_from (c ∷ cs) nested segment = elim (move nested c) [
  | split ↦ push_front segment (parse_from cs 0 [])
  | invalid ↦ fault assertion
  | stay k ↦ parse_from cs k (segment ++ c ∷ [])
]

unfoldable pub parse_canonical_name : Bytes → Outcome (List Bytes)
unfolding parse_from
parse_canonical_name name = parse_from name 0 []

unfoldable pub join_rest : List Bytes → Bytes
join_rest [] = []
join_rest (p ∷ ps) = b'.' ∷ p ++ join_rest ps

unfoldable pub join_name : List Bytes → Bytes
unfolding join_rest
join_name [] = []
join_name (p ∷ ps) = p ++ join_rest ps
