-- ===== src/Imports.antt =====
-- model/Import.cc and model/ImportedDef.cc: the imports that a generic or a module stores.
pub mod Defs
pub mod RoundTrip
pub mod Fuel
use crack.Prelude.{
  ℕ, zero, suc, ◌+◌, ◌*◌, ◌%◌, ◌^◌, leb, Bool, true, false, if◌then◌else◌, List, [], ◌∷◌, Bytes,
  bytes_eq, length, ◌==◌, ◌||◌, not,
}
use crack.Serial.Reader.{
  Deserializer, Read, got, undefined, out_of_fuel, read_uint, read_uint_eof, read_string,
  ◌then_read◌,
}
use crack.Serial.Writer.{Serializer, write_uint, write_string, uint_mod}

pub record ImportedDef : Type 0 where
  pub local : Bytes
  pub source : Bytes

pub record Import : Type 0 where
  pub module_name : List Bytes
  pub syms : List ImportedDef

-- CRACK_PB_KEY of a string field.
abbrev pub string_key : ℕ → ℕ
string_key id = id * 8 + 2

-- A nested serializer has a stream and a hasher of its own; the object map is shared.
abbrev pub nested : Serializer → Serializer
nested s = record { dst = []; obj_map = s.obj_map; hashed = []; digest_enabled = false }

-- The optional block, with the local name.
unfoldable pub local_block : Serializer → Bytes → Bytes
unfolding write_uint write_string
local_block s local = (write_string (write_uint (nested s) (string_key 1)) local).dst

unfoldable pub serialize_def : Serializer → ImportedDef → Serializer
unfolding local_block write_uint write_string
serialize_def s i =
    let s' = write_string s i.source in
    if bytes_eq i.local i.source then write_uint s' 0 else write_string s' (local_block s' i.local)

-- NestedDeserializer: its data is a string of the parent.
abbrev pub nested_reader : Deserializer → Bytes → Deserializer
nested_reader d text = record {
  src = text;
  eof = false;
  obj_map = d.obj_map;
  hashed = [];
  digest_enabled = false;
}

-- A round: whether there is a field, and whether it is the first.
abbrev pub field : Bool → Bool → Read Bytes → Read Bytes → Read Bytes → Read Bytes
field true true known other done = known
field true false known other done = other
field false first known other done = done

-- The loop of CRACK_PB_BEGIN over the fields of the block. A round reads a byte at least, so the length
-- of the block is enough fuel; other fields than the first are skipped by their headers alone.
unfoldable pub read_fields : ℕ → Bytes → Deserializer → Read Bytes
unfolding read_uint_eof read_string
read_fields zero local d = out_of_fuel
read_fields (suc f) local d = read_uint_eof d then_read λ header d'.
    field (not (header.1 == 0) || not header.0) (header.1 == string_key 1)
      (read_string d' then_read λ name d''. read_fields f name d'') (read_fields f local d')
      (got local d')

-- The block, and the parent behind it: the object map is shared.
abbrev pub behind : Deserializer → Read Bytes → Read Bytes
behind d (got local inner) = got local (record d { obj_map = inner.obj_map })
behind d other = other

unfoldable pub read_block : Deserializer → Read Bytes
unfolding read_string read_fields
read_block d = read_string d then_read λ text d'.
    behind d' (read_fields (length text + 1) [] (nested_reader d' text))

abbrev pub is_empty_name : Bytes → Bool
is_empty_name [] = true
is_empty_name (c ∷ cs) = false

abbrev pub imported : Bytes → Bytes → ImportedDef
imported source local =
    if is_empty_name local
    then record { local = source; source = source }
    else record { local = local; source = source }

unfoldable pub deserialize_def : Deserializer → Read ImportedDef
unfolding read_string read_block
deserialize_def d = read_string d then_read λ source d'.
    read_block d' then_read λ local d''. got (imported source local) d''

unfoldable pub write_names : Serializer → List Bytes → Serializer
unfolding write_string
write_names s [] = s
write_names s (n ∷ ns) = write_names (write_string s n) ns

unfoldable pub write_defs : Serializer → List ImportedDef → Serializer
unfolding serialize_def
write_defs s [] = s
write_defs s (i ∷ is') = write_defs (serialize_def s i) is'

unfoldable pub serialize : Serializer → Import → Serializer
unfolding write_names write_defs write_uint
serialize s i =
    let s' = write_names (write_uint s (length i.module_name % uint_mod)) i.module_name in
    let s'' = write_defs (write_uint s' (length i.syms % uint_mod)) i.syms in write_uint s'' 0

-- `while (count--)` over an int, which is negative from 2 to the 31 on.
unfoldable pub read_times :
    {A : Type 0} → (Deserializer → Read A) → ℕ → Deserializer → Read (List A)
read_times reader zero d = got [] d
read_times reader (suc n) d =
    reader d then_read λ x d'. read_times reader n d' then_read λ xs d''. got (x ∷ xs) d''

abbrev pub read_counted : {A : Type 0} → (Deserializer → Read A) → ℕ → Deserializer → Read (List A)
read_counted reader count d = if leb (2 ^ 31) count then undefined else read_times reader count d

unfoldable pub deserialize : Deserializer → Read Import
unfolding read_uint read_string deserialize_def read_times
deserialize d = read_uint d then_read λ names d1.
    read_counted read_string names d1 then_read λ module_name d2. read_uint d2 then_read λ count d3.
    read_counted deserialize_def count d3 then_read λ syms d4.
    read_string d4 then_read λ optional d5.
    got (record { module_name = module_name; syms = syms }) d5
