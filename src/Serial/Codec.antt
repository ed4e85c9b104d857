-- ===== src/Serial/Codec.antt =====
-- Writers and readers that agree on the bytes between them, and how such pairs are composed.
use crack.Prelude.{
  ℕ, ◌<◌, ◌≡◌, refl, ap, ◌∙◌, true, false, Bytes, [], ◌++◌, append-nil, append_assoc, List, arith,
  length,
}
use crack.Serial.Reader.{
  Deserializer, Read, got, read_uint, read_uint_eof, read_varint, read_groups, get_in, read_string,
  ◌then_read◌,
}
use crack.Serial.Strings.{took_both, write_string-wrote, read_string-took}
use crack.Serial.Varint.{encoding, wrote, took, write_uint-wrote, read_uint-took, read_varint-took}
use crack.Serial.Writer.{Serializer, write_uint, write_string, uint_mod}

abbrev pub text_bytes : Bytes → Bytes
text_bytes str = encoding (length str) ++ str

-- The writer adds the bytes, to the digest too where that is on.
abbrev pub WritesAs : (Serializer → Serializer) → Bytes → Type 0
WritesAs write bs = (s : Serializer) → write s ≡ wrote s bs

-- The reader takes exactly the bytes, from a stream whose end it has not met, and gives the value.
abbrev pub ReadsAs {ℓ} : {A : Type ℓ} → (Deserializer → Read A) → Bytes → A → Type ℓ
ReadsAs read bs v =
    (d : Deserializer) (rest : Bytes)
    → d.eof ≡ false
    → d.src ≡ bs ++ rest
    → read d ≡ got v (took d bs rest)

wrote_both : (s : Serializer) (xs ys : Bytes) → wrote (wrote s xs) ys ≡ wrote s (xs ++ ys)
wrote_both s xs ys = ground (arith, append_assoc s.dst xs ys, append_assoc s.hashed xs ys)

pub write_then :
    (w v : Serializer → Serializer) (xs ys : Bytes)
    → WritesAs w xs
    → WritesAs v ys
    → WritesAs (λ s. v (w s)) (xs ++ ys)
write_then w v xs ys h k s = ap v (h s) ∙ k (wrote s xs) ∙ wrote_both s xs ys

pub write_nothing : WritesAs (λ s. s) []
write_nothing s = ground (arith, append-nil s.dst, append-nil s.hashed)

pub read_then {ℓ κ} :
    {A : Type ℓ} {B : Type κ} (r : Deserializer → Read A) (k : A → Deserializer → Read B)
    (xs ys : Bytes) (a : A) (b : B)
    → ReadsAs r xs a
    → ReadsAs (k a) ys b
    → ReadsAs (λ d. r d then_read k) (xs ++ ys) b
read_then r k xs ys a b h j d rest e s =
    ap (λ x. x then_read k) (h d (ys ++ rest) e (s ∙ append_assoc xs ys rest))
    ∙ j (took d xs (ys ++ rest)) rest e refl
    ∙ ap (got b) (took_both d xs ys (ys ++ rest) rest)

pub read_nothing {ℓ} : {A : Type ℓ} (a : A) → ReadsAs (λ d. got a d) [] a
read_nothing a d rest e s = ap (got a) (ground (arith, append-nil d.hashed))

-- The same for a result that is computed from what was read.
pub read_as {ℓ κ} :
    {A : Type ℓ} {B : Type κ} (r : Deserializer → Read A) (f : A → B) (xs : Bytes) (a : A)
    → ReadsAs r xs a
    → ReadsAs (λ d. r d then_read λ x d'. got (f x) d') xs (f a)
read_as r f xs a h d rest e s = rw (h d rest e s) refl

pub number_written : (v : ℕ) → v < uint_mod → WritesAs (λ s. write_uint s v) (encoding v)
number_written v h s = write_uint-wrote s v h

pub number_read : (v : ℕ) → v < uint_mod → ReadsAs read_uint (encoding v) v
number_read v h d rest e s = read_uint-took d v rest e h s

pub header_read : (v : ℕ) → v < uint_mod → ReadsAs read_uint_eof (encoding v) (false, v)
unfolding read_uint_eof
header_read v h d rest e s = rw (read_varint-took d v rest e h s) refl

pub text_written :
    (str : Bytes) → length str < uint_mod → WritesAs (λ s. write_string s str) (text_bytes str)
text_written str h s = write_string-wrote s str h

pub text_read : (str : Bytes) → length str < uint_mod → ReadsAs read_string (text_bytes str) str
text_read str h d rest e s =
    read_string-took d str rest e h (s ∙ append_assoc (encoding (length str)) str rest)

-- A stream at its end gives the flag.
pub end_read :
    (m : List (ℕ × ℕ)) (h : Bytes)
    → read_uint_eof
        (record { src = []; eof = false; obj_map = m; hashed = h; digest_enabled = false })
      ≡ got
          (true, 0)
          (record { src = []; eof = true; obj_map = m; hashed = h; digest_enabled = false })
unfolding read_uint_eof read_varint read_groups get_in
end_read m h = refl
