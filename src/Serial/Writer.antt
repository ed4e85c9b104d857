-- ===== src/Serial/Writer.antt =====
-- model/Serializer.cc: a serializer as a value. `hashed` is what was added to its MD5 hasher, whose
-- digest is a function of it; the tracing is left out.
use crack.Prelude.{
  ℕ, zero, suc, ◌+◌, ◌*◌, ◌/◌, ◌%◌, ◌^◌, ◌==◌, Bool, true, false, Bytes, List, [], ◌∷◌, ◌++◌,
  Option, some, none, if◌then◌else◌, length,
}

-- The object map: addresses with their ids, and the next id.
pub record ObjMap : Type 0 where
  pub ids : List (ℕ × ℕ)
  pub last_id : ℕ

pub record Serializer : Type 0 where
  pub dst : Bytes
  pub obj_map : ObjMap
  pub hashed : Bytes
  pub digest_enabled : Bool

abbrev pub uint_mod : ℕ
uint_mod = 2 ^ 32

unfoldable pub init : Serializer
init = record {
  dst = [];
  obj_map = record { ids = []; last_id = 0 };
  hashed = [];
  digest_enabled = false;
}

-- `dst << b`, and `hasher.add(b)` where the digest is on.
unfoldable pub put_byte : Serializer → ℕ → Serializer
put_byte s b = record s {
  dst = s.dst ++ b ∷ [];
  hashed = if s.digest_enabled then s.hashed ++ b ∷ [] else s.hashed;
}

-- `while (val)`: seven bits a round, the top bit set while more follow. `val & 0x7f` is
-- `val % 128`, and `|= 0x80` on a byte below 128 adds 128.
unfoldable pub write_loop : ℕ → Serializer → ℕ → Serializer
write_loop zero s val = s
write_loop (suc f) s val =
    let low = val % 128 in
    let high = val / 128 in
    let next = write_loop f (put_byte s (if high == 0 then low else low + 128)) high in
    if val == 0 then s else next

-- An unsigned int has 32 bits: five rounds are enough.
unfoldable pub write_uint : Serializer → ℕ → Serializer
unfolding write_loop put_byte
write_uint s val = if val == 0 then put_byte s 0 else write_loop 5 s val

-- The bytes themselves.
unfoldable pub put_bytes : Serializer → Bytes → Serializer
put_bytes s data' = record s {
  dst = s.dst ++ data';
  hashed = if s.digest_enabled then s.hashed ++ data' else s.hashed;
}

-- A blob or a string: its length, cut to an unsigned int, and its bytes.
unfoldable pub write_string : Serializer → Bytes → Serializer
unfolding put_bytes write_uint
write_string s str = put_bytes (write_uint s (length str % uint_mod)) str

unfoldable pub find_id : ℕ → List (ℕ × ℕ) → Option ℕ
find_id object [] = none
find_id object ((o, id) ∷ ids) = if object == o then some id else find_id object ids

-- A new object takes the next id.
unfoldable pub add_object : Serializer → ℕ → Serializer
add_object s object = record s {
  obj_map = record {
    ids = (object, s.obj_map.last_id) ∷ s.obj_map.ids;
    last_id = s.obj_map.last_id + 1;
  };
}

-- An object under its id, where it has one.
unfoldable pub write_as : Option ℕ → Serializer → ℕ → Serializer × Bool
unfolding add_object write_uint
write_as none s object =
    (write_uint (add_object s object) ((s.obj_map.last_id * 2 + 1) % uint_mod), true)
write_as (some id) s object = (write_uint s (id * 2 % uint_mod), false)

-- The caller writes the object's state if the flag is true.
unfoldable pub write_object : Serializer → ℕ → Serializer × Bool
unfolding find_id write_as
write_object s object = write_as (find_id object s.obj_map.ids) s object

unfoldable pub register_object : Serializer → ℕ → Serializer × ℕ
unfolding find_id add_object
register_object s object = elim (find_id object s.obj_map.ids) [
  | none ↦ (add_object s object, s.obj_map.last_id)
  | some id ↦ (s, id)
]

-- `none` is the source's -1.
unfoldable pub get_object_id : Serializer → ℕ → Option ℕ
unfolding find_id
get_object_id s object = find_id object s.obj_map.ids

-- StackFrame: the flag for the time that `body` runs, and the old one behind it.
abbrev pub with_digest : Bool → (Serializer → Serializer) → Serializer → Serializer
with_digest on body s =
    let s' = body (record s { digest_enabled = on }) in
    record s' { digest_enabled = s.digest_enabled }
