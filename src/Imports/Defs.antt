-- ===== src/Imports/Defs.antt =====
-- Imported names, written and read (model/ImportedDef.cc).
use mathlib.Core.Path.{subst}
use crack.Imports.{
  ImportedDef, string_key, nested, local_block, serialize_def, nested_reader, read_fields, field,
  behind, read_block, imported, deserialize_def,
}
use crack.Prelude.{
  ℕ, zero, suc, ◌+◌, ◌<◌, ◌≤◌, ◌==◌, not, ◌||◌, Bool, true, false, if◌then◌else◌, List, [], ◌∷◌,
  ◌++◌, append-nil, Bytes, bytes_eq, bytes_eq_iff, length, length-append, ◌≡◌, ◌≢◌, refl, sym, ap,
  ◌∙◌, arith,
}
use crack.Serial.Codec.{
  WritesAs, ReadsAs, write_then, read_then, read_as, number_written, header_read, text_written,
  text_read, text_bytes, end_read,
}
use crack.Serial.Reader.{Deserializer, got, read_uint_eof, read_string, ◌then_read◌}
use crack.Serial.Varint.{encoding, wrote, took, length-encoding}
use crack.Serial.Writer.{Serializer, write_uint, write_string, uint_mod}

abbrev block_bytes : Bytes → Bytes
block_bytes local = encoding (string_key 1) ++ text_bytes local

local_block-bytes :
    (s : Serializer) (local : Bytes)
    → length local < uint_mod
    → local_block s local ≡ block_bytes local
unfolding local_block
local_block-bytes s local h =
    ap (λ r. r.dst)
      (write_then (λ r. write_uint r (string_key 1)) (λ r. write_string r local)
        (encoding (string_key 1)) (text_bytes local) (number_written (string_key 1) (omega arith))
        (text_written local h) (nested s))

-- A round behind its header.
one_round :
    (f : ℕ) (local : Bytes) (d d' : Deserializer) (header : Bool × ℕ)
    → read_uint_eof d ≡ got header d'
    → read_fields (suc f) local d
      ≡ field
          (not (header.1 == 0) || not header.0)
          (header.1 == string_key 1)
          (read_string d' then_read λ name d''. read_fields f name d'')
          (read_fields f local d')
          (got local d')
unfolding read_fields
one_round f local d d' header h =
    ap
      (λ r. r then_read λ header d'.
        field (not (header.1 == 0) || not header.0) (header.1 == string_key 1)
          (read_string d' then_read λ name d''. read_fields f name d'') (read_fields f local d')
          (got local d'))
      h

abbrev inner : ℕ → Bytes → List (ℕ × ℕ) → Deserializer
inner e text m = record {
  src = text;
  eof = e == 1;
  obj_map = m;
  hashed = [];
  digest_enabled = false;
}

no_fields :
    (f : ℕ) (local : Bytes) (m : List (ℕ × ℕ))
    → read_fields (suc f) local (inner 0 [] m) ≡ got local (inner 1 [] m)
no_fields f local m = one_round f local (inner 0 [] m) (inner 1 [] m) (true, 0) (end_read m [])

fields_read :
    (f : ℕ) (m : List (ℕ × ℕ)) (local : Bytes)
    → length local < uint_mod
    → read_fields (suc (suc f)) [] (inner 0 (block_bytes local) m) ≡ got local (inner 1 [] m)
fields_read f m local h =
    let key = encoding (string_key 1) in
    one_round (suc f) [] (inner 0 (block_bytes local) m) (inner 0 (text_bytes local) m)
      (false, string_key 1)
      (header_read (string_key 1) (omega arith) (inner 0 (block_bytes local) m) (text_bytes local)
        refl refl)
    ∙ ap (λ r. r then_read λ name d''. read_fields (suc f) name d'')
        (text_read local h (inner 0 (text_bytes local) m) [] refl
          (sym (append-nil (text_bytes local))))
    ∙ no_fields f local m

-- What a definition is written as.
abbrev optional_part : Bytes → Bytes → Bytes
optional_part local source =
    if bytes_eq local source then text_bytes [] else text_bytes (block_bytes local)

abbrev pub def_bytes : ImportedDef → Bytes
def_bytes i = text_bytes i.source ++ optional_part i.local i.source

-- Names that the stream can hold, the local one not empty.
pub record IsStorable (i : ImportedDef) : Type 0 where
  pub named : i.local ≢ []
  pub local_fits : length i.local + 16 < uint_mod
  pub source_fits : length i.source < uint_mod

block_length : (local : Bytes) → length (block_bytes local) ≤ 10 + length local
block_length local = omega (
  arith,
  length-append (encoding (string_key 1)) (text_bytes local),
  length-append (encoding (length local)) local,
  length-encoding (string_key 1),
  length-encoding (length local),
)

pub zero_written : WritesAs (λ s. write_uint s 0) (text_bytes [])
zero_written s = number_written 0 (omega arith) s ∙ ap (wrote s) (sym (append-nil (encoding 0)))

optional_written :
    (b : Bool) (local : Bytes)
    → length local + 16 < uint_mod
    → WritesAs
        (λ s. if b then write_uint s 0 else write_string s (local_block s local))
        (if b then text_bytes [] else text_bytes (block_bytes local))
optional_written true local h s = zero_written s
optional_written false local h s =
    ap (write_string s) (local_block-bytes s local (omega arith))
    ∙ text_written (block_bytes local) (omega (arith, block_length local)) s

pub def_written : (i : ImportedDef) → IsStorable i → WritesAs (λ s. serialize_def s i) (def_bytes i)
unfolding serialize_def
def_written i h =
    write_then (λ s. write_string s i.source)
      (λ s.
        if bytes_eq i.local i.source
        then write_uint s 0
        else write_string s (local_block s i.local))
      (text_bytes i.source) (optional_part i.local i.source) (text_written i.source h.source_fits)
      (optional_written (bytes_eq i.local i.source) i.local h.local_fits)

enough :
    (n : ℕ) (m : List (ℕ × ℕ)) (local : Bytes)
    → length local < uint_mod
    → read_fields (suc n + 1) [] (inner 0 (block_bytes local) m) ≡ got local (inner 1 [] m)
enough n m local h =
    let rounds : suc n + 1 ≡ suc (suc n) = omega arith in
    ap (λ f. read_fields f [] (inner 0 (block_bytes local) m)) rounds ∙ fields_read n m local h

not_none : (n : ℕ) → 1 ≤ n → (k : ℕ) × (n ≡ suc k)
not_none zero h = absurd (omega arith)
not_none (suc k) h = (k, refl)

block_some : (local : Bytes) → 1 ≤ length (block_bytes local)
block_some local = omega (
  arith,
  length-append (encoding (string_key 1)) (text_bytes local),
  length-encoding (string_key 1),
)

block_read :
    (local : Bytes)
    → length local + 16 < uint_mod
    → ReadsAs read_block (text_bytes (block_bytes local)) local
unfolding read_block
block_read local h d rest e s =
    let text = block_bytes local in
    let (k, size) = not_none (length text) (block_some local) in
    ap
      (λ r.
        r then_read λ text d'. behind d' (read_fields (length text + 1) [] (nested_reader d' text)))
      (text_read text (omega (arith, block_length local)) d rest e s)
    ∙ ap
        (λ n.
          behind (took d (text_bytes text) rest) (read_fields (n + 1) [] (inner 0 text d.obj_map)))
        size
    ∙ ap (behind (took d (text_bytes text) rest)) (enough k d.obj_map local (omega arith))

block_empty : ReadsAs read_block (text_bytes []) []
unfolding read_block
block_empty d rest e s =
    ap
      (λ r.
        r then_read λ text d'. behind d' (read_fields (length text + 1) [] (nested_reader d' text)))
      (text_read [] (omega arith) d rest e s)
    ∙ ap (behind (took d (text_bytes []) rest)) (no_fields 0 [] d.obj_map)

optional_read :
    (b : Bool) (local : Bytes)
    → length local + 16 < uint_mod
    → ReadsAs read_block
        (if b then text_bytes [] else text_bytes (block_bytes local))
        (if b then [] else local)
optional_read true local h = block_empty
optional_read false local h = block_read local h

imported_some :
    (local source : Bytes)
    → local ≢ []
    → imported source local ≡ record { local = local; source = source }
imported_some [] source h = absurd (h refl)
imported_some (c ∷ cs) source h = refl

imported_back :
    (i : ImportedDef) (b : Bool)
    → bytes_eq i.local i.source ≡ b
    → i.local ≢ []
    → imported i.source (if b then [] else i.local) ≡ i
imported_back i true e h =
    ap (λ l. record { local = l; source = i.source }) (sym ((bytes_eq_iff i.local i.source).0 e))
imported_back i false e h = imported_some i.local i.source h

pub def_read : (i : ImportedDef) → IsStorable i → ReadsAs deserialize_def (def_bytes i) i
unfolding deserialize_def
def_read i h =
    let b = bytes_eq i.local i.source in
    let l = if b then [] else i.local in
    subst (ReadsAs deserialize_def (def_bytes i)) (imported_back i b refl h.named) (
      read_then read_string
        (λ source d. read_block d then_read λ local d'. got (imported source local) d')
        (text_bytes i.source) (optional_part i.local i.source) i.source (imported i.source l)
        (text_read i.source h.source_fits)
        (read_as read_block (imported i.source) (optional_part i.local i.source) l
          (optional_read b i.local h.local_fits)))
