-- ===== src/Imports/RoundTrip.antt =====
-- Imports, written and read (model/Import.cc).
use crack.Imports.Defs.{IsStorable, def_bytes, def_written, def_read, zero_written}
use crack.Imports.{
  ImportedDef, Import, serialize_def, deserialize_def, write_names, write_defs, serialize,
  read_times, read_counted, deserialize,
}
use crack.Prelude.{
  ◌%◌, ◌^◌, ◌<◌, leb, false, List, [], ◌∷◌, ◌++◌, All, Bytes, length, ◌≡◌, refl, arith,
}
use crack.Serial.Codec.{
  WritesAs, ReadsAs, write_then, write_nothing, read_then, read_nothing, read_as, number_written,
  number_read, text_written, text_read, text_bytes,
}
use crack.Serial.Reader.{Deserializer, Read, got, read_uint, read_string, ◌then_read◌}
use crack.Serial.Varint.{encoding, wrote, took}
use crack.Serial.Writer.{Serializer, write_uint, write_string, uint_mod}

-- The bytes of a list, one behind the other.
abbrev all_bytes {ℓ} : {A : Type ℓ} → (A → Bytes) → List A → Bytes
all_bytes f [] = []
all_bytes f (x ∷ xs) = f x ++ all_bytes f xs

names_written :
    (ns : List Bytes)
    → All (λ n. length n < uint_mod) ns
    → WritesAs (λ s. write_names s ns) (all_bytes text_bytes ns)
unfolding write_names
names_written [] h = write_nothing
names_written (n ∷ ns) h =
    write_then (λ s. write_string s n) (λ s. write_names s ns) (text_bytes n)
      (all_bytes text_bytes ns) (text_written n h.0) (names_written ns h.1)

defs_written :
    (ds : List ImportedDef)
    → All IsStorable ds
    → WritesAs (λ s. write_defs s ds) (all_bytes def_bytes ds)
unfolding write_defs
defs_written [] h = write_nothing
defs_written (i ∷ ds) h =
    write_then (λ s. serialize_def s i) (λ s. write_defs s ds) (def_bytes i)
      (all_bytes def_bytes ds) (def_written i h.0) (defs_written ds h.1)

times_read :
    {A : Type 0} (reader : Deserializer → Read A) (f : A → Bytes) (xs : List A)
    → All (λ x. ReadsAs reader (f x) x) xs
    → ReadsAs (read_times reader (length xs)) (all_bytes f xs) xs
unfolding read_times
times_read reader f [] h = read_nothing []
times_read reader f (x ∷ xs) h =
    read_then reader (λ y d. read_times reader (length xs) d then_read λ ys d'. got (y ∷ ys) d')
      (f x) (all_bytes f xs) x (x ∷ xs) h.0
      (read_as (read_times reader (length xs)) (λ ys. x ∷ ys) (all_bytes f xs) xs
        (times_read reader f xs h.1))

counted_read :
    {A : Type 0} (reader : Deserializer → Read A) (f : A → Bytes) (xs : List A)
    → length xs < 2 ^ 31
    → All (λ x. ReadsAs reader (f x) x) xs
    → ReadsAs (read_counted reader (length xs)) (all_bytes f xs) xs
counted_read reader f xs n h =
    let small : leb (2 ^ 31) (length xs) ≡ false = ground arith in
    rw small (times_read reader f xs h)

-- An import whose names the stream can hold, with fewer than 2 to the 31 of either kind.
pub record IsKept (i : Import) : Type 0 where
  pub names : All (λ n. length n < uint_mod) i.module_name
  pub defs : All IsStorable i.syms
  pub few_names : length i.module_name < 2 ^ 31
  pub few_defs : length i.syms < 2 ^ 31

abbrev syms_bytes : Import → Bytes
syms_bytes i = encoding (length i.syms) ++ (all_bytes def_bytes i.syms ++ text_bytes [])

abbrev import_bytes : Import → Bytes
import_bytes i =
    encoding (length i.module_name) ++ (all_bytes text_bytes i.module_name ++ syms_bytes i)

syms_written :
    (i : Import)
    → IsKept i
    → WritesAs
        (λ s. write_uint (write_defs (write_uint s (length i.syms % uint_mod)) i.syms) 0)
        (syms_bytes i)
syms_written i h =
    let whole : length i.syms % uint_mod ≡ length i.syms = omega (arith, h.few_defs) in
    rw whole (
      write_then (λ s. write_uint s (length i.syms)) (λ s. write_uint (write_defs s i.syms) 0)
        (encoding (length i.syms)) (all_bytes def_bytes i.syms ++ text_bytes [])
        (number_written (length i.syms) (omega (arith, h.few_defs)))
        (write_then (λ s. write_defs s i.syms) (λ s. write_uint s 0) (all_bytes def_bytes i.syms)
          (text_bytes []) (defs_written i.syms h.defs) zero_written))

import_written : (i : Import) → IsKept i → WritesAs (λ s. serialize s i) (import_bytes i)
unfolding serialize
import_written i h =
    let names = i.module_name in
    let whole : length i.module_name % uint_mod ≡ length i.module_name =
      omega (arith, h.few_names) in
    rw whole (
      write_then (λ s. write_uint s (length names))
        (λ s.
          write_uint
            (write_defs (write_uint (write_names s names) (length i.syms % uint_mod)) i.syms) 0)
        (encoding (length names)) (all_bytes text_bytes names ++ syms_bytes i)
        (number_written (length names) (omega (arith, h.few_names)))
        (write_then (λ s. write_names s names)
          (λ s. write_uint (write_defs (write_uint s (length i.syms % uint_mod)) i.syms) 0)
          (all_bytes text_bytes names) (syms_bytes i) (names_written names h.names)
          (syms_written i h)))

names_read :
    (ns : List Bytes)
    → All (λ n. length n < uint_mod) ns
    → All (λ n. ReadsAs read_string (text_bytes n) n) ns
names_read [] h = tt
names_read (n ∷ ns) h = (text_read n h.0, names_read ns h.1)

defs_read :
    (ds : List ImportedDef)
    → All IsStorable ds
    → All (λ i. ReadsAs deserialize_def (def_bytes i) i) ds
defs_read [] h = tt
defs_read (i ∷ ds) h = (def_read i h.0, defs_read ds h.1)

import_read : (i : Import) → IsKept i → ReadsAs deserialize (import_bytes i) i
unfolding deserialize
import_read i h =
    let names = i.module_name in
    read_then read_uint _ (encoding (length names)) (all_bytes text_bytes names ++ syms_bytes i)
      (length names) i (number_read (length names) (omega (arith, h.few_names)))
      (read_then (read_counted read_string (length names)) _ (all_bytes text_bytes names)
        (syms_bytes i) names i
        (counted_read read_string text_bytes names h.few_names (names_read names h.names))
        (read_then read_uint _ (encoding (length i.syms))
          (all_bytes def_bytes i.syms ++ text_bytes []) (length i.syms) i
          (number_read (length i.syms) (omega (arith, h.few_defs)))
          (read_then (read_counted deserialize_def (length i.syms)) _ (all_bytes def_bytes i.syms)
            (text_bytes []) i.syms i
            (counted_read deserialize_def def_bytes i.syms h.few_defs (defs_read i.syms h.defs))
            (read_as read_string (λ optional. i) (text_bytes []) [] (text_read [] (omega arith))))))

-- An import with fewer than 2 to the 31 names in its module's name, each shorter than 2 to the 32, and
-- fewer than 2 to the 31 symbols, each with a local name that is not empty and shorter than 2 to the 32
-- less 16 and a source name shorter than 2 to the 32: what a serializer writes for it is read as the
-- same import by a deserializer that has not met its stream's end, with exactly the bytes behind it
-- left; where both digests are on the two hash the same bytes.
pub deserialize-serialize :
    (s : Serializer) (d : Deserializer) (i : Import) (rest : Bytes)
    → IsKept i
    → d.eof ≡ false
    → (bs : Bytes) × (serialize s i ≡ wrote s bs)
      × (deserialize (record d { src = bs ++ rest }) ≡ got i (took d bs rest))
deserialize-serialize s d i rest h e = (
  import_bytes i,
  import_written i h s,
  import_read i h (record d { src = import_bytes i ++ rest }) rest e refl,
)
