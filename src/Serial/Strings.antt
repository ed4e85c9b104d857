-- ===== src/Serial/Strings.antt =====
-- Strings, written and read: model/Serializer.cc, lines 51 to 59, and model/Deserializer.cc, lines
-- 53 to 82.
use crack.Prelude.{
  ◌%◌, ◌<◌, ◌≡◌, refl, ap, ◌∙◌, false, Bytes, [], ◌∷◌, ◌++◌, append_assoc, some, arith, length,
}
use crack.Serial.Reader.{Deserializer, got, read_string, read_bytes, split_at, ◌then_read◌}
use crack.Serial.Varint.{encoding, wrote, took, write_uint-wrote, read_uint-took}
use crack.Serial.Writer.{Serializer, write_string, put_bytes, uint_mod}

split_at-length : (bs rest : Bytes) → split_at (length bs) (bs ++ rest) ≡ some (bs, rest)
unfolding split_at
split_at-length [] rest = refl
split_at-length (b ∷ bs) rest = rw (split_at-length bs rest) refl

wrote_both : (s : Serializer) (xs ys : Bytes) → put_bytes (wrote s xs) ys ≡ wrote s (xs ++ ys)
unfolding put_bytes
wrote_both s xs ys = ground (arith, append_assoc s.dst xs ys, append_assoc s.hashed xs ys)

pub write_string-wrote :
    (s : Serializer) (str : Bytes)
    → length str < uint_mod
    → write_string s str ≡ wrote s (encoding (length str) ++ str)
unfolding write_string
write_string-wrote s str h =
    let whole : length str % uint_mod ≡ length str = omega arith in
    rw (whole, write_uint-wrote s (length str) h) (wrote_both s (encoding (length str)) str)

pub took_both :
    (d : Deserializer) (xs ys mid rest : Bytes)
    → took (took d xs mid) ys rest ≡ took d (xs ++ ys) rest
took_both d xs ys mid rest = ground (arith, append_assoc d.hashed xs ys)

read_bytes-length :
    (d : Deserializer) (bs rest : Bytes)
    → d.src ≡ bs ++ rest
    → read_bytes (length bs) d ≡ got bs (took d bs rest)
unfolding read_bytes
read_bytes-length d bs rest s = rw (s, read_bytes, split_at-length bs rest) refl

pub read_string-took :
    (d : Deserializer) (str rest : Bytes)
    → d.eof ≡ false
    → length str < uint_mod
    → d.src ≡ encoding (length str) ++ (str ++ rest)
    → read_string d ≡ got str (took d (encoding (length str) ++ str) rest)
unfolding read_string
read_string-took d str rest e h s =
    let n = encoding (length str) in
    let mid : Deserializer = took d n (str ++ rest) in
    ap (λ r. r then_read λ size d'. read_bytes size d')
      (read_uint-took d (length str) (str ++ rest) e h s)
    ∙ read_bytes-length mid str rest refl
    ∙ ap (got str) (took_both d n str (str ++ rest) rest)

-- Every string shorter than 2 to the 32 that a serializer writes is what a deserializer that has not
-- met its stream's end reads at that place, with exactly the bytes behind it left; where both digests
-- are on the two hash the same bytes.
pub read_string-write_string :
    (s : Serializer) (d : Deserializer) (str rest : Bytes)
    → length str < uint_mod
    → d.eof ≡ false
    → (bs : Bytes) × (write_string s str ≡ wrote s bs)
      × (read_string (record d { src = bs ++ rest }) ≡ got str (took d bs rest))
read_string-write_string s d str rest h e = (
  encoding (length str) ++ str,
  write_string-wrote s str h,
  read_string-took (record d { src = (encoding (length str) ++ str) ++ rest }) str rest e h
      (append_assoc (encoding (length str)) str rest),
)
