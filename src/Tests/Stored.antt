-- ===== src/Tests/Stored.antt =====
-- The theorems on module names, digests and imports at concrete inputs.
use crack.Imports.RoundTrip.{IsKept, deserialize-serialize}
use crack.Imports.Fuel.{Ends, read_fields-Ends}
use crack.Imports.{Import, serialize, deserialize, read_fields}
use crack.Modules.Digest.{digest_size, as_hex, from_hex, from_hex-as_hex}
use crack.Modules.Names.Parts.{
  no_more, letter, bracketed, other, nothing, Parts, last, more, parse_canonical_name-join_name,
}
use crack.Modules.Names.Splits.{Split, closes_early, parse_canonical_name-Split}
use crack.Modules.Names.{parse_canonical_name, join_name}
use crack.Prelude.{
  ◌+◌, ◌*◌, ◌++◌, List, [], ◌∷◌, Bytes, codes, length, ok, ◌≡◌, refl, arith, true, false,
}
use crack.Serial.Reader.{Deserializer, got}
use crack.Serial.Varint.{wrote, took}
use crack.Serial.Writer.{init as new_serializer}

-- a and b[.]
abbrev parts : List Bytes
parts = codes "a" ∷ codes "b[.]" ∷ []

parts-Parts : Parts parts
parts-Parts =
    more
      (letter b'a' (λ e. omega (arith, e)) (λ e. omega (arith, e)) (λ e. omega (arith, e)) no_more)
      (last (
        letter b'b' (λ e. omega (arith, e)) (λ e. omega (arith, e)) (λ e. omega (arith, e))
          (bracketed (other b'.' (λ e. omega (arith, e)) (λ e. omega (arith, e)) nothing) no_more)))

parse_canonical_name-join_name_example : parse_canonical_name (join_name parts) ≡ ok parts
parse_canonical_name-join_name_example = parse_canonical_name-join_name parts parts-Parts

parse_canonical_name-Split_example :
    Split (codes "a.b]") (closes_early 0 (codes "a.b]")) (parse_canonical_name (codes "a.b]"))
parse_canonical_name-Split_example = parse_canonical_name-Split (codes "a.b]")

abbrev digest : Bytes
digest = 0 ∷ 255 ∷ 16 ∷ 171 ∷ 1 ∷ 2 ∷ 3 ∷ 4 ∷ 5 ∷ 6 ∷ 7 ∷ 8 ∷ 9 ∷ 10 ∷ 11 ∷ 12 ∷ []

from_hex-as_hex_example :
    (from_hex (as_hex digest) ≡ digest) × (length (as_hex digest) ≡ digest_size * 2)
from_hex-as_hex_example = from_hex-as_hex digest (
  refl,
  (
    omega arith,
    (
      omega arith,
      (
        omega arith,
        (
          omega arith,
          (
            omega arith,
            (
              omega arith,
              (
                omega arith,
                (
                  omega arith,
                  (
                    omega arith,
                    (
                      omega arith,
                      (
                        omega arith,
                        (
                          omega arith,
                          (omega arith, (omega arith, (omega arith, (omega arith, tt)))),
                        ),
                      ),
                    ),
                  ),
                ),
              ),
            ),
          ),
        ),
      ),
    ),
  ),
)

abbrev math_import : Import
math_import = record {
  module_name = codes "crack" ∷ codes "math" ∷ [];
  syms =
      record { local = codes "s"; source = codes "sin" }
      ∷ record { local = codes "cos"; source = codes "cos" }
      ∷ [];
}

abbrev stream : Deserializer
stream = record { src = []; eof = false; obj_map = []; hashed = []; digest_enabled = true }

math_import-IsKept : IsKept math_import
math_import-IsKept = record {
  names = (omega arith, (omega arith, tt));
  defs = (
    record { named = λ e. cc e; local_fits = omega arith; source_fits = omega arith },
    (record { named = λ e. cc e; local_fits = omega arith; source_fits = omega arith }, tt),
  );
  few_names = omega arith;
  few_defs = omega arith;
}

deserialize-serialize_example :
    (bs : Bytes) × (serialize new_serializer math_import ≡ wrote new_serializer bs)
    × (deserialize (record stream { src = bs ++ codes "x" })
        ≡ got math_import (took stream bs (codes "x")))
deserialize-serialize_example =
    deserialize-serialize new_serializer stream math_import (codes "x") math_import-IsKept refl

-- A block with a field that is not known, and a local name behind it.
abbrev block : Deserializer
block = record {
  src = 80 ∷ 10 ∷ 1 ∷ b'x' ∷ [];
  eof = false;
  obj_map = [];
  hashed = [];
  digest_enabled = false;
}

read_fields-Ends_example :
    Ends (read_fields (length block.src + 1) [] block)
    × (read_fields (length block.src + 1 + 9) [] block
        ≡ read_fields (length block.src + 1) [] block)
read_fields-Ends_example = read_fields-Ends 9 [] block
