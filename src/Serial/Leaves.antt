-- ===== src/Serial/Leaves.antt =====
-- How much of its stream a read leaves.
use crack.Prelude.{
  ℕ, zero, suc, ◌+◌, ◌*◌, ◌<◌, ◌≤◌, ltb, leb, Bool, true, false, Bool-cases, if◌then◌else◌, Option,
  some, none, [], ◌∷◌, ◌++◌, Bytes, length, ◌≡◌, refl, inl, inr, arith,
}
use crack.Serial.Reader.{
  Deserializer, Read, got, eof_error, check_failed, undefined, out_of_fuel, get_in, read_groups,
  read_varint, read_uint, read_uint_eof, read_bytes, split_at, read_string, ◌then_read◌,
}

-- What a read leaves of a stream with so many bytes. A read that runs out of rounds has none.
pub data Leaves {A : Type 0} (Ok : A → ℕ → Type 0) : Read A → Type 0 where
  left : {a : A} {d : Deserializer} → Ok a (length d.src) → Leaves Ok (got a d)
  no_more : Leaves Ok eof_error
  refused : Leaves Ok check_failed
  unknown : Leaves Ok undefined

-- A number is read from a byte at least.
abbrev Fewer : ℕ → Option ℕ → ℕ → Type 0
Fewer n none m = Unit {0}
Fewer n (some v) m = m < n

weaker : (n k : ℕ) (r : Read (Option ℕ)) → n ≤ k → Leaves (Fewer n) r → Leaves (Fewer k) r
weaker n k (got none d) h a = left tt
weaker n k (got (some v) d) h (left a) = left (omega arith)
weaker n k eof_error h a = no_more
weaker n k check_failed h a = refused
weaker n k undefined h a = unknown
weaker n k out_of_fuel h a = elim a [ ]

groups_left :
    (f val offset : ℕ) (d : Deserializer) (src : Bytes)
    → d.src ≡ src
    → offset < 39
    → 39 ≤ offset + 7 * f
    → Leaves (Fewer (length src)) (read_groups f val offset d)
unfolding read_groups get_in
groups_left zero val offset d src s low enough = absurd (omega arith)
groups_left (suc f) val offset d [] s low enough = elim (Bool-cases d.eof) [
  | inl e ↦ rw e (left tt)
  | inr e ↦
      rw (e, s)
        (elim (Bool-cases (leb 32 offset)) [
          | inl o ↦ rw o unknown
          | inr o ↦ rw o (groups_left f _ (offset + 7) _ [] refl (ground arith) (omega arith))
        ])
]
groups_left (suc f) val offset d (b ∷ rest) s low enough = elim (Bool-cases d.eof) [
  | inl e ↦ rw e (left tt)
  | inr e ↦
      rw (e, s)
        (elim (Bool-cases (leb 32 offset)) [
          | inl o ↦ rw o unknown
          | inr o ↦ rw o (elim (Bool-cases (ltb b 128)) [
            | inl l ↦ rw l (left (omega arith))
            | inr l ↦ rw l (
                weaker (length rest) (suc (length rest)) _ (omega arith)
                  (groups_left f _ (offset + 7) _ rest refl (ground arith) (omega arith)))
          ])
        ])
]

-- A header, which is 0 where the stream has ended.
abbrev pub Header : ℕ → Bool × ℕ → ℕ → Type 0
Header n (true, v) m = v ≡ 0
Header n (false, v) m = m < n

Header-of :
    (n : ℕ) (r : Read (Option ℕ))
    → Leaves (Fewer n) r
    → Leaves
        (Header n)
        (r then_read λ o d'. elim o [ none ↦ got (true, 0) d' | some v ↦ got (false, v) d' ])
Header-of n (got none d) a = left refl
Header-of n (got (some v) d) (left a) = left a
Header-of n eof_error a = no_more
Header-of n check_failed a = refused
Header-of n undefined a = unknown
Header-of n out_of_fuel a = elim a [ ]

pub Header-left : (d : Deserializer) → Leaves (Header (length d.src)) (read_uint_eof d)
unfolding read_uint_eof read_varint
Header-left d =
    Header-of (length d.src) (read_varint d)
      (groups_left 6 0 0 d d.src refl (omega arith) (omega arith))

abbrev SplitLeaves : ℕ → Option (Bytes × Bytes) → Type 0
SplitLeaves n none = Unit {0}
SplitLeaves n (some (xs, ys)) = length ys ≤ n

split_more :
    (b n : ℕ) (r : Option (Bytes × Bytes))
    → SplitLeaves n r
    → SplitLeaves (suc n) (elim r [ none ↦ none | some (x, y) ↦ some (b ∷ x, y) ])
split_more b n none h = tt
split_more b n (some (x, y)) h = omega arith

split_left : (n : ℕ) (bs : Bytes) → SplitLeaves (length bs) (split_at n bs)
unfolding split_at
split_left zero bs = omega arith
split_left (suc n) [] = tt
split_left (suc n) (b ∷ bs) = split_more b (length bs) (split_at n bs) (split_left n bs)

abbrev pub NoMore : {A : Type 0} → ℕ → A → ℕ → Type 0
NoMore n a m = m ≤ n

bytes_of :
    (d : Deserializer) (h : Bytes → Bytes) (o : Option (Bytes × Bytes)) (n : ℕ)
    → SplitLeaves n o
    → Leaves (NoMore n) (elim o [
      | none ↦ eof_error
      | some (bs, rest) ↦ got bs (record d { src = rest; hashed = h bs })
    ])
bytes_of d h none n l = no_more
bytes_of d h (some (bs, rest)) n l = left l

bytes_left : (n : ℕ) (d : Deserializer) → Leaves (NoMore (length d.src)) (read_bytes n d)
unfolding read_bytes
bytes_left n d =
    bytes_of d (λ bs. if d.digest_enabled then d.hashed ++ bs else d.hashed) (split_at n d.src)
      (length d.src) (split_left n d.src)

widen : (n k : ℕ) (r : Read Bytes) → n ≤ k → Leaves (NoMore n) r → Leaves (NoMore k) r
widen n k (got a d) h (left l) = left (omega arith)
widen n k eof_error h a = no_more
widen n k check_failed h a = refused
widen n k undefined h a = unknown
widen n k out_of_fuel h a = elim a [ ]

string_of :
    (n : ℕ) (r : Read (Option ℕ))
    → Leaves (Fewer n) r
    → Leaves (NoMore n) (
        (r then_read λ o d'. elim o [ none ↦ eof_error | some v ↦ got v d' ]) then_read λ size d'.
        read_bytes size d')
string_of n (got none d) a = no_more
string_of n (got (some v) d) (left a) = widen (length d.src) n _ (omega arith) (bytes_left v d)
string_of n eof_error a = no_more
string_of n check_failed a = refused
string_of n undefined a = unknown
string_of n out_of_fuel a = elim a [ ]

pub string_left : (d : Deserializer) → Leaves (NoMore (length d.src)) (read_string d)
unfolding read_string read_uint read_varint
string_left d =
    string_of (length d.src) (read_varint d)
      (groups_left 6 0 0 d d.src refl (omega arith) (omega arith))
