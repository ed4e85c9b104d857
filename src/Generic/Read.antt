-- ===== src/Generic/Read.antt =====
-- Generic::deserializeToken and the part on the body of Generic::deserialize (model/Generic.cc, lines
-- 101 to 188 and 294 to 304). A line or a column of 2 to the 31 or more, which the source takes as
-- negative, is kept as it was read.
use crack.Location.{Location, no_location}
use crack.Prelude.{
  ℕ, zero, suc, ◌+◌, ltb, false, if◌then◌else◌, Option, some, none, List, [], ◌∷◌, Bytes, codes,
  length,
}
use crack.Serial.Reader.{Deserializer, Read, got, undefined, ◌then_read◌, read_uint, read_string}
use crack.Token.Codes.{type_of_code}
use crack.Token.{
  TokenType, Token, type_code, file_name, line_number, ann, bit_and, bit_lsh, bit_or, bit_rsh,
  bit_xor, dollar, assign, assign_and, assign_asterisk, assign_lsh, assign_or, assign_rsh,
  assign_xor, assign_minus, assign_percent, assign_plus, assign_slash, asterisk, bang, colon, comma,
  decr, define, dot, eq, ge, gt, incr, lbracket, lcurly, le, lparen, lt, minus, ne, percent, plus,
  quest, rbracket, rcurly, rparen, semi, slash, tilde, logic_and, logic_or, scoping, is_kw,
}
use crack.Generic.Write.{has_data, c_str}

-- The texts that the types stand for. The keywords but `is` have none.
unfoldable pub token_text : TokenType → Bytes
token_text ann = codes "@"
token_text bit_and = codes "&"
token_text bit_lsh = codes "<<"
token_text bit_or = codes "|"
token_text bit_rsh = codes ">>"
token_text bit_xor = codes "^"
token_text dollar = codes "$"
token_text assign = codes "="
token_text assign_and = codes "&="
token_text assign_asterisk = codes "*="
token_text assign_lsh = codes "<<="
token_text assign_or = codes "|="
token_text assign_rsh = codes ">>="
token_text assign_xor = codes "^="
token_text assign_minus = codes "-="
token_text assign_percent = codes "%="
token_text assign_plus = codes "+="
token_text assign_slash = codes "/="
token_text asterisk = codes "*"
token_text bang = codes "!"
token_text colon = codes ":"
token_text comma = codes ","
token_text decr = codes "--"
token_text define = codes ":="
token_text dot = codes "."
token_text eq = codes "=="
token_text ge = codes ">="
token_text gt = codes ">"
token_text incr = codes "++"
token_text lbracket = codes "["
token_text lcurly = codes "{"
token_text le = codes "<="
token_text lparen = codes "("
token_text lt = codes "<"
token_text minus = codes "-"
token_text ne = codes "!="
token_text percent = codes "%"
token_text plus = codes "+"
token_text quest = codes "?"
token_text rbracket = codes "]"
token_text rcurly = codes "}"
token_text rparen = codes ")"
token_text semi = codes ";"
token_text slash = codes "/"
token_text tilde = codes "~"
token_text logic_and = codes "&&"
token_text logic_or = codes "||"
token_text scoping = codes "::"
token_text is_kw = codes "is"
token_text _ = []

-- `int column`, read with the digest off, and the flag as it was behind it.
unfoldable pub read_column : Deserializer → Read ℕ
unfolding read_uint
read_column d = read_uint (record d { digest_enabled = false }) then_read λ column d'.
    got column (record d' { digest_enabled = d.digest_enabled })

-- The location of a token. The line number has no value before the first one is read.
unfoldable pub read_location :
    TokenType → Bytes → Bytes → Option ℕ → Deserializer → Read (Token × Bytes × Option ℕ)
unfolding read_column c_str
read_location type text file line d = read_column d then_read λ column d'. elim line [
  | none ↦ undefined
  | some l ↦
      let loc : Location = record {
        name = c_str file;
        line_number = l;
        start_col = column;
        end_col = column + length text;
      } in
      got (record { type = type; text = text; loc = loc }, file, some l) d'
]

-- A token of this type, with the name and the line that hold behind it.
unfoldable pub read_token_of :
    TokenType → Bytes → Option ℕ → Deserializer → Read (Token × Bytes × Option ℕ)
unfolding read_location token_text has_data
read_token_of file_name file line d = read_string d then_read λ file' d'.
    got (record { type = file_name; text = []; loc = no_location }, file', line) d'
read_token_of line_number file line d = read_uint d then_read λ line' d'.
    got (record { type = line_number; text = []; loc = no_location }, file, some line') d'
read_token_of type file line d =
    if has_data type
    then (read_string d then_read λ text d'. read_location type text file line d')
    else read_location type (token_text type) file line d

-- A number that is no member's value is a type of no name: the source goes on, the model stops.
unfoldable pub read_typed :
    Option TokenType → Bytes → Option ℕ → Deserializer → Read (Token × Bytes × Option ℕ)
unfolding read_token_of
read_typed none file line d = undefined
read_typed (some type) file line d = read_token_of type file line d

unfoldable pub deserialize_token : Bytes → Option ℕ → Deserializer → Read (Token × Bytes × Option ℕ)
unfolding read_typed type_of_code
deserialize_token file line d =
    read_uint d then_read λ code d'. read_typed (type_of_code code) file line d'

-- `if (tok.getType() < Token::fileName)`
abbrev pub keep : Token → List Token → List Token
keep t ts = if ltb (type_code t.type) (type_code file_name) then t ∷ ts else ts

-- The loop over the number of tokens.
unfoldable pub read_tokens : ℕ → Bytes → Option ℕ → Deserializer → Read (List Token)
unfolding deserialize_token
read_tokens zero file line d = got [] d
read_tokens (suc n) file line d = deserialize_token file line d then_read λ r d'.
    read_tokens n r.1 r.2 d' then_read λ ts d''. got (keep r.0 ts) d''

-- The count, the tokens, and the `optional` part, which is dropped.
unfoldable pub deserialize_body : Deserializer → Read (List Token)
unfolding read_tokens read_uint read_string
deserialize_body d = read_uint d then_read λ count d'.
    read_tokens count [] none d' then_read λ ts d''.
    read_string d'' then_read λ optional d3. got ts d3
