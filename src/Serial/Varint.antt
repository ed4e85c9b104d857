-- ===== src/Serial/Varint.antt =====
-- Numbers, written and read: writeUInt (model/Serializer.cc) and readUInt (model/Deserializer.cc).
use crack.Prelude.{
  ℕ, zero, suc, ◌+◌, ◌*◌, ◌/◌, ◌%◌, ◌^◌, ◌≤◌, ◌<◌, ◌≢◌, ◌≡◌, refl, ap, ◌∙◌, ◌==◌, true, false,
  Bytes, [], ◌∷◌, ◌++◌, append-nil, append_assoc, some, arith, if◌then◌else◌, leb, ltb, length,
}
use native.Mathlib.Decide.{dec_lt}
use native.Mathlib.Numerals.{towards_suc}
use native.Mathlib.Nat.{pow-suc, div-add-mod}
use crack.Serial.Reader.{Deserializer, got, read_groups, read_varint, read_uint, get_in}
use crack.Serial.Writer.{Serializer, write_loop, write_uint, put_byte, uint_mod}

-- The groups of seven bits of a number, the lowest first.
abbrev groups : ℕ → ℕ → Bytes
groups zero v = []
groups (suc f) v =
    let rest = groups f (v / 128) in if v / 128 == 0 then v % 128 ∷ [] else (v % 128 + 128) ∷ rest

pub encoding : ℕ → Bytes
encoding v = groups 5 v

-- What a write adds.
abbrev pub wrote : Serializer → Bytes → Serializer
wrote s bs = record s {
  dst = s.dst ++ bs;
  hashed = if s.digest_enabled then s.hashed ++ bs else s.hashed;
}

write_zero : (f : ℕ) (s : Serializer) → write_loop f s 0 ≡ s
unfolding write_loop
write_zero zero s = refl
write_zero (suc f) s = refl

wrote_nil : (s : Serializer) → wrote s [] ≡ s
wrote_nil s = ground (arith, append-nil s.dst, append-nil s.hashed)

wrote_twice : (s : Serializer) (b : ℕ) (bs : Bytes) → wrote (put_byte s b) bs ≡ wrote s (b ∷ bs)
unfolding put_byte
wrote_twice s b bs =
    ground (arith, append_assoc s.dst (b ∷ []) bs, append_assoc s.hashed (b ∷ []) bs)

write_loop-groups :
    (f : ℕ) (s : Serializer) (v : ℕ) → v ≢ 0 → v < 128 ^ f → write_loop f s v ≡ wrote s (groups f v)
unfolding write_loop
write_loop-groups zero s v n h = absurd (n (omega arith))
write_loop-groups (suc f) s v n h = ground (
  arith,
  write_zero f (put_byte s (v % 128)),
  wrote_twice s (v % 128) [],
  wrote_nil (put_byte s (v % 128)),
  write_loop-groups f (put_byte s (v % 128 + 128)) (v / 128),
  pow-suc 128 f,
  wrote_twice s (v % 128 + 128) (groups f (v / 128)),
)

-- What a read takes.
abbrev pub took : Deserializer → Bytes → Bytes → Deserializer
took d bs rest = record d {
  src = rest;
  hashed = if d.digest_enabled then d.hashed ++ bs else d.hashed;
}

round_last :
    (f val offset : ℕ) (d : Deserializer) (w : ℕ) (rest : Bytes)
    → d.eof ≡ false
    → d.src ≡ w ∷ rest
    → w < 128
    → offset < 32
    → read_groups (suc f) val offset d
      ≡ got (some (val + w * 2 ^ offset % uint_mod)) (took d (w ∷ []) rest)
unfolding read_groups
round_last f val offset d w rest e s h o =
    let wide : leb 32 offset ≡ false = ground arith in
    let last : ltb w 128 ≡ true = ground arith in
    let low : w % 128 ≡ w = omega arith in rw (s, get_in, e) (rw (wide, last) (rw low refl))

round_more :
    (f val offset : ℕ) (d : Deserializer) (w : ℕ) (rest : Bytes)
    → d.eof ≡ false
    → d.src ≡ (w + 128) ∷ rest
    → w < 128
    → offset < 32
    → read_groups (suc f) val offset d
      ≡ read_groups f (val + w * 2 ^ offset % uint_mod) (offset + 7) (took d ((w + 128) ∷ []) rest)
unfolding read_groups
round_more f val offset d w rest e s h o =
    let wide : leb 32 offset ≡ false = ground arith in
    let more : ltb (w + 128) 128 ≡ false = ground arith in
    let low : (w + 128) % 128 ≡ w = omega arith in rw (s, get_in, e) (rw (wide, more) (rw low refl))

groups_small : (n w : ℕ) → w < 128 → groups (suc n) w ≡ w ∷ []
groups_small n w h = ground arith

groups_big : (n w : ℕ) → 128 ≤ w → groups (suc n) w ≡ (w % 128 + 128) ∷ groups n (w / 128)
groups_big n w h = ground arith

-- The value split at its lowest group, shifted.
split_value : (w s : ℕ) → w * 2 ^ s ≡ w % 128 * 2 ^ s + w / 128 * 2 ^ (s + 7)
split_value w s =
    let seven : 2 ^ (s + 7) ≡ 128 * 2 ^ s = simp towards_suc (omega arith) in
    omega (arith, ap (λ (t : ℕ). t * 2 ^ s) (div-add-mod w 128), ap (λ (t : ℕ). w / 128 * t) seven)

took_twice :
    (d : Deserializer) (b : ℕ) (bs mid rest : Bytes)
    → took (took d (b ∷ []) mid) bs rest ≡ took d (b ∷ bs) rest
took_twice d b bs mid rest = ground (arith, append_assoc d.hashed (b ∷ []) bs)

read_small :
    (n val offset : ℕ) (d : Deserializer) (w : ℕ) (rest : Bytes)
    → d.eof ≡ false
    → d.src ≡ groups (suc n) w ++ rest
    → offset < 32
    → w < 128
    → val + w * 2 ^ offset < uint_mod
    → read_groups (suc (suc n)) val offset d
      ≡ got (some (val + w * 2 ^ offset)) (took d (groups (suc n) w) rest)
read_small n val offset d w rest e s o l h =
    let fits : w * 2 ^ offset % uint_mod ≡ w * 2 ^ offset = omega arith in
    let g = groups_small n w l in
    round_last (suc n) val offset d w rest e (s ∙ ap (λ t. t ++ rest) g) l o ∙ rw (fits, g) refl

-- The reader's loop over the groups that are left: `offset` is seven bits for each group read.
read_groups-groups :
    (n val offset : ℕ) (d : Deserializer) (w : ℕ) (rest : Bytes)
    → d.eof ≡ false
    → d.src ≡ groups (suc n) w ++ rest
    → offset + 7 * suc n ≡ 35
    → val + w * 2 ^ offset < uint_mod
    → read_groups (suc (suc n)) val offset d
      ≡ got (some (val + w * 2 ^ offset)) (took d (groups (suc n) w) rest)
read_groups-groups zero val offset d w rest e s o h =
    let last : offset ≡ 28 = omega arith in
    let small : w < 16 = omega (arith, rw last at h) in
    read_small zero val offset d w rest e s (omega arith) (omega arith) h
read_groups-groups (suc n) val offset d w rest e s o h = elim (dec_lt w 128) [
  | yes l ↦ read_small (suc n) val offset d w rest e s (omega arith) l h
  | no l ↦
      let low = w % 128 in
      let g = groups_big (suc n) w (omega arith) in
      let fits : low * 2 ^ offset % uint_mod ≡ low * 2 ^ offset =
        omega (arith, split_value w offset) in
      let sum : val + low * 2 ^ offset + w / 128 * 2 ^ (offset + 7) ≡ val + w * 2 ^ offset =
        omega (arith, split_value w offset) in
      let mid = groups (suc n) (w / 128) ++ rest in
      round_more (suc (suc n)) val offset d low mid e (s ∙ ap (λ t. t ++ rest) g) (omega arith)
        (omega arith)
      ∙ ap (λ z. read_groups (suc (suc n)) (val + z) (offset + 7) (took d ((low + 128) ∷ []) mid))
          fits
      ∙ read_groups-groups n (val + low * 2 ^ offset) (offset + 7) (took d ((low + 128) ∷ []) mid)
          (w / 128) rest e refl (omega arith) (omega arith)
      ∙ rw (sum, took_twice, g) refl
]

-- A write of a number adds its encoding to the output, and to the digest where that is on.
pub write_uint-wrote :
    (s : Serializer) (v : ℕ) → v < uint_mod → write_uint s v ≡ wrote s (encoding v)
unfolding write_uint encoding put_byte
write_uint-wrote s v h = ground (arith, write_loop-groups 5 s v, write_zero 5 s)

pub read_varint-took :
    (d : Deserializer) (v : ℕ) (rest : Bytes)
    → d.eof ≡ false
    → v < uint_mod
    → d.src ≡ encoding v ++ rest
    → read_varint d ≡ got (some v) (took d (encoding v) rest)
unfolding read_varint encoding
read_varint-took d v rest e h s =
    let once : 0 + v * 2 ^ 0 ≡ v = omega arith in
    read_groups-groups 4 0 0 d v rest e s (omega arith) (omega arith)
    ∙ ap (λ z. got (some z) (took d (groups 5 v) rest)) once

pub read_uint-took :
    (d : Deserializer) (v : ℕ) (rest : Bytes)
    → d.eof ≡ false
    → v < uint_mod
    → d.src ≡ encoding v ++ rest
    → read_uint d ≡ got v (took d (encoding v) rest)
unfolding read_uint
read_uint-took d v rest e h s = rw (read_varint-took d v rest e h s) refl

-- At most five bytes.
pub length-encoding : (v : ℕ) → (1 ≤ length (encoding v)) × (length (encoding v) ≤ 5)
unfolding encoding
length-encoding v = ground arith

-- Every number below 2 to the 32 that a serializer writes is what a deserializer that has not met its
-- stream's end reads at that place, with exactly the bytes behind it left; the write takes one to
-- five bytes, and where both digests are on the two hash the same bytes.
pub read_uint-write_uint :
    (s : Serializer) (d : Deserializer) (v : ℕ) (rest : Bytes)
    → v < uint_mod
    → d.eof ≡ false
    → (bs : Bytes) × (write_uint s v ≡ wrote s bs)
      × (read_uint (record d { src = bs ++ rest }) ≡ got v (took d bs rest))
      × (1 ≤ length bs)
      × (length bs ≤ 5)
read_uint-write_uint s d v rest h e = (
  encoding v,
  write_uint-wrote s v h,
  read_uint-took (record d { src = encoding v ++ rest }) v rest e h refl,
  (length-encoding v).0,
  (length-encoding v).1,
)
