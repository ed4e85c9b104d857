-- ===== src/Serial/Reader.antt =====
-- model/Deserializer.cc: a deserializer as a value. Objects are their addresses.
use crack.Prelude.{
  ℕ, zero, suc, ◌+◌, ◌*◌, ◌/◌, ◌%◌, ◌^◌, ltb, leb, ◌==◌, Bool, true, false, Bytes, List, [], ◌∷◌,
  ◌++◌, Option, some, none, if◌then◌else◌,
}
use crack.Serial.Writer.{uint_mod}

pub record Deserializer : Type 0 where
  pub src : Bytes
  -- the stream's eof bit, which a read past the end sets
  pub eof : Bool
  pub obj_map : List (ℕ × ℕ)
  pub hashed : Bytes
  pub digest_enabled : Bool

pub data Read {ℓ} (A : Type ℓ) : Type ℓ where
  got : A → Deserializer → Read A
  -- DeserializationError("EOF deserializing meta-data")
  eof_error : Read A
  -- a failed assertion or SPUG_CHECK
  check_failed : Read A
  -- a shift by the width of an unsigned int or more
  undefined : Read A
  -- the rounds of a loop were too few
  out_of_fuel : Read A

infixl 5 ◌then_read◌
abbrev pub ◌then_read◌ {ℓ κ} :
    {A : Type ℓ} {B : Type κ} → Read A → (A → Deserializer → Read B) → Read B
got a d then_read f = f a d
eof_error then_read f = eof_error
check_failed then_read f = check_failed
undefined then_read f = undefined
out_of_fuel then_read f = out_of_fuel

abbrev hash : Deserializer → Bytes → Bytes
hash d bs = if d.digest_enabled then d.hashed ++ bs else d.hashed

-- `b = src.get()` and the hasher: at the end the stream gives -1, the byte 255.
unfoldable pub get_in : Bytes → Deserializer → ℕ × Deserializer
get_in [] d = (255, record d { eof = true; hashed = hash d (255 ∷ []) })
get_in (b ∷ rest) d = (b, record d { src = rest; hashed = hash d (b ∷ []) })

-- What the loop of readUInt ends with: the value, or `none` at the end of the stream. `b & 0x7f` is
-- `b % 128`, and `|` with a number shifted past all bits of `val` is a sum.
unfoldable pub read_groups : ℕ → ℕ → ℕ → Deserializer → Read (Option ℕ)
unfolding get_in
read_groups zero val offset d = out_of_fuel
read_groups (suc f) val offset d =
    let (b, d') = get_in d.src d in
    let val' = val + b % 128 * 2 ^ offset % uint_mod in
    let next = read_groups f val' (offset + 7) d' in
    if d.eof
    then got none d
    else if leb 32 offset
    then undefined
    else if ltb b 128
    then got (some val') d'
    else next

-- The offsets are 0, 7, 14, 21, 28 and 35, which is too much: six rounds are enough.
unfoldable pub read_varint : Deserializer → Read (Option ℕ)
unfolding read_groups
read_varint d = read_groups 6 0 0 d

-- readUInt with no place for the end-of-stream flag.
unfoldable pub read_uint : Deserializer → Read ℕ
unfolding read_varint
read_uint d = read_varint d then_read λ o d'. elim o [ none ↦ eof_error | some v ↦ got v d' ]

-- readUInt with one: the flag and the value, which is 0 where the flag is true.
unfoldable pub read_uint_eof : Deserializer → Read (Bool × ℕ)
unfolding read_varint
read_uint_eof d =
    read_varint d then_read λ o d'. elim o [ none ↦ got (true, 0) d' | some v ↦ got (false, v) d' ]

-- The first `n` bytes and the others; `none` where there are fewer.
unfoldable pub split_at : ℕ → Bytes → Option (Bytes × Bytes)
split_at zero bs = some ([], bs)
split_at (suc n) [] = none
split_at (suc n) (b ∷ bs) = elim (split_at n bs) [ none ↦ none | some (x, y) ↦ some (b ∷ x, y) ]

-- `src.read(buffer, size)`, and the hasher.
unfoldable pub read_bytes : ℕ → Deserializer → Read Bytes
unfolding split_at
read_bytes size d = elim (split_at size d.src) [
  | none ↦ eof_error
  | some (bs, rest) ↦ got bs (record d { src = rest; hashed = hash d bs })
]

-- readBlob and readString: the size of the buffer decides only where the bytes are put.
unfoldable pub read_string : Deserializer → Read Bytes
unfolding read_uint read_bytes
read_string d = read_uint d then_read λ size d'. read_bytes size d'

unfoldable pub find_object : ℕ → List (ℕ × ℕ) → Option ℕ
find_object id [] = none
find_object id ((i, object) ∷ map) = if id == i then some object else find_object id map

-- The assertion that an id without a definition is known.
unfoldable pub resolve : Option ℕ → Deserializer → Read (ℕ × Bool)
resolve none d = check_failed
resolve (some obj) d = got (obj, false) d

-- readObject, the reader of an object being an argument. The flag says that this was the definition.
unfoldable pub read_object : (Deserializer → Read ℕ) → Deserializer → Read (ℕ × Bool)
unfolding read_uint find_object resolve
read_object reader d = read_uint d then_read λ id d'.
    if id % 2 == 1
    then (reader d' then_read λ obj d''.
        got (obj, true) (record d'' { obj_map = (id / 2, obj) ∷ d''.obj_map }))
    else resolve (find_object (id / 2) d'.obj_map) d'

unfoldable pub get_object : Deserializer → ℕ → Option ℕ
unfolding find_object
get_object d id = find_object id d.obj_map

-- SPUG_CHECK refuses an id that is taken.
unfoldable pub register_object : Deserializer → ℕ → ℕ → Read (Unit {0})
unfolding find_object
register_object d id object = elim (find_object id d.obj_map) [
  | none ↦ got tt (record d { obj_map = (id, object) ∷ d.obj_map })
  | some _ ↦ check_failed
]
