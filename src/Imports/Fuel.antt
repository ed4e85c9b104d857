-- ===== src/Imports/Fuel.antt =====
-- The rounds of the loop over an optional block.
use crack.Imports.{read_fields, field, string_key}
use crack.Prelude.{
  ℕ, zero, suc, ◌+◌, ◌<◌, ◌==◌, not, ◌||◌, Bool, true, false, Bool-cases, Bytes, length, ◌≡◌, refl,
  inl, inr, arith,
}
use crack.Serial.Leaves.{Leaves, left, Header, NoMore, Header-left, string_left}
use crack.Serial.Reader.{
  Deserializer, Read, got, eof_error, check_failed, undefined, out_of_fuel, read_uint_eof,
  read_string, ◌then_read◌,
}

-- Two amounts of fuel that give the same on shorter streams.
abbrev SameBelow : ℕ → ℕ → ℕ → Type 0
SameBelow n f g =
    (local : Bytes) (d : Deserializer)
    → length d.src < n
    → read_fields f local d ≡ read_fields g local d

same_string :
    (n f g m : ℕ) (r : Read Bytes)
    → m < n
    → Leaves (NoMore m) r
    → SameBelow n f g
    → (r then_read λ name d''. read_fields f name d'')
      ≡ (r then_read λ name d''. read_fields g name d'')
same_string n f g m (got name d) h (left l) same = same name d (omega arith)
same_string n f g m eof_error h a same = refl
same_string n f g m check_failed h a same = refl
same_string n f g m undefined h a same = refl
same_string n f g m out_of_fuel h a same = refl

abbrev after : ℕ → Bytes → Bool × ℕ → Deserializer → Read Bytes
after f local header d' =
    field (not (header.1 == 0) || not header.0) (header.1 == string_key 1)
      (read_string d' then_read λ name d''. read_fields f name d'') (read_fields f local d')
      (got local d')

same_field :
    (first : Bool) (a b x y z : Read Bytes)
    → a ≡ x
    → b ≡ y
    → field true first a b z ≡ field true first x y z
same_field true a b x y z h k = h
same_field false a b x y z h k = k

more_fields : (v : ℕ) → (not (v == 0) || true) ≡ true
more_fields v = elim (Bool-cases (v == 0)) [ inl e ↦ rw e refl | inr e ↦ rw e refl ]

same_round :
    (n f g : ℕ) (local : Bytes) (r : Read (Bool × ℕ))
    → Leaves (Header n) r
    → SameBelow n f g
    → (r then_read after f local) ≡ (r then_read after g local)
same_round n f g local (got (true, v) d) (left z) same = rw z refl
same_round n f g local (got (false, v) d) (left h) same = rw (more_fields v) (
    same_field (v == string_key 1) _ _ _ _ (got local d)
      (same_string n f g (length d.src) (read_string d) h (string_left d) same) (same local d h))
same_round n f g local eof_error a same = refl
same_round n f g local check_failed a same = refl
same_round n f g local undefined a same = refl
same_round n f g local out_of_fuel a same = refl

same_fuel :
    (f g : ℕ) (local : Bytes) (d : Deserializer)
    → length d.src < f
    → length d.src < g
    → read_fields f local d ≡ read_fields g local d
unfolding read_fields
same_fuel zero g local d h k = absurd (omega arith)
same_fuel (suc f) zero local d h k = absurd (omega arith)
same_fuel (suc f) (suc g) local d h k =
    same_round (length d.src) f g local (read_uint_eof d) (Header-left d)
      (λ local' d' l. same_fuel f g local' d' (omega arith) (omega arith))

-- A read that did not run out of rounds.
abbrev pub Ends : {A : Type 0} → Read A → Type 0
Ends out_of_fuel = ⊥
Ends _ = Unit {0}

-- The loop ends on shorter streams.
abbrev EndsBelow : ℕ → ℕ → Type 0
EndsBelow n f = (local : Bytes) (d : Deserializer) → length d.src < n → Ends (read_fields f local d)

string_ends :
    (n f m : ℕ) (r : Read Bytes)
    → m < n
    → Leaves (NoMore m) r
    → EndsBelow n f
    → Ends (r then_read λ name d''. read_fields f name d'')
string_ends n f m (got name d) h (left l) ends = ends name d (omega arith)
string_ends n f m eof_error h a ends = tt
string_ends n f m check_failed h a ends = tt
string_ends n f m undefined h a ends = tt
string_ends n f m out_of_fuel h a ends = elim a [ ]

field_ends : (first : Bool) (a b z : Read Bytes) → Ends a → Ends b → Ends (field true first a b z)
field_ends true a b z h k = h
field_ends false a b z h k = k

round_ends :
    (n f : ℕ) (local : Bytes) (r : Read (Bool × ℕ))
    → Leaves (Header n) r
    → EndsBelow n f
    → Ends (r then_read after f local)
round_ends n f local (got (true, v) d) (left z) ends = rw z tt
round_ends n f local (got (false, v) d) (left h) ends = rw (more_fields v) (
    field_ends (v == string_key 1) _ _ (got local d)
      (string_ends n f (length d.src) (read_string d) h (string_left d) ends) (ends local d h))
round_ends n f local eof_error a ends = tt
round_ends n f local check_failed a ends = tt
round_ends n f local undefined a ends = tt
round_ends n f local out_of_fuel a ends = elim a [ ]

enough_fuel :
    (f : ℕ) (local : Bytes) (d : Deserializer) → length d.src < f → Ends (read_fields f local d)
unfolding read_fields
enough_fuel zero local d h = absurd (omega arith)
enough_fuel (suc f) local d h =
    round_ends (length d.src) f local (read_uint_eof d) (Header-left d)
      (λ local' d' l. enough_fuel f local' d' (omega arith))

-- The loop over the fields of an optional block ends within one round more than the block has bytes,
-- whatever the bytes: it does not run out of rounds, and any more rounds give the same result.
pub read_fields-Ends :
    (more : ℕ) (local : Bytes) (d : Deserializer)
    → Ends (read_fields (length d.src + 1) local d)
      × (read_fields (length d.src + 1 + more) local d ≡ read_fields (length d.src + 1) local d)
read_fields-Ends more local d = (
  enough_fuel (length d.src + 1) local d (omega arith),
  same_fuel (length d.src + 1 + more) (length d.src + 1) local d (omega arith) (omega arith),
)
