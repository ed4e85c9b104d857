-- ===== src/Tests.antt =====
-- The theorems at concrete inputs.
mod Model
mod Grammar
mod Lazy
mod Names
mod Stored
use crack.Generic.{get_tokens, replay, get_tokens-replay, state_through}
use crack.Generic.Body.{restored}
use crack.Generic.Columns.{moved, serialize_body-moved}
use crack.Generic.Read.{deserialize_body}
use crack.Generic.RoundTrip.{deserialize_body-serialize_body}
use crack.Generic.Tokens.{IsStored, added}
use crack.Generic.Write.{count_tokens, cost, c_str, same_line, next_file, next_line, serialize_body}
use mathlib.Core.List.{map}
use crack.Location.{Location, no_location}
use crack.Prelude.{
  ℕ, ◌+◌, ◌≤◌, ◌++◌, List, [], ◌∷◌, Bytes, codes, count, length, ok, fault, uninitialised, ◌≡◌,
  refl, true, false, inl, inr, arith, none, All,
}
use crack.Serial.Reader.{Deserializer, got, read_uint, read_string}
use crack.Serial.Strings.{read_string-write_string}
use crack.Serial.Objects.{IsRelated, Exchanged, read_object-write_whole}
use crack.Serial.Varint.{encoding, read_uint-took, wrote, took, read_uint-write_uint}
use crack.Serial.Writer.{find_id, Serializer, init as new_serializer, write_uint, write_string}
use crack.Token.{ident, type_code, is_kw, TokenType, Token, istr_begin, string, if_kw}
use crack.Toker.Chars.{is_alpha, is_alnum, is_positive}
use crack.Toker.Lexes.Faults.{equals_colon}
use crack.Toker.Lexes.Words.{reads_word}
use crack.Toker.Lexes.{Yields}
use crack.Toker.Read.{read_token}
use crack.Toker.Safety.Loop.{Reads, read_token-Reads}
use crack.Toker.Safety.{pending}
use crack.Toker.Indent.{fix_indentation, reindent}
use crack.Toker.Indent.Words.{inked, inked-reindent}
use crack.Toker.Step.Words.{find_keyword}
use crack.Toker.Putback.{Restored, unget_char-get_char}
use crack.Toker.State.{unget_char, get_char, next_char, advance, Toker, init}

-- A tokenizer before a text.
abbrev on_text : Bytes → Toker
on_text text = init text (codes "a.crk") 1 0

abbrev comparison : Bytes
comparison = codes "x==1\n"

read_token-Reads_example :
    Reads
      (pending (on_text comparison))
      ((on_text comparison).current_line + count b'\n' (pending (on_text comparison)))
      (read_token (on_text comparison))
unfolding init
read_token-Reads_example =
    read_token-Reads (on_text comparison) (record { accepted = refl; buffered = omega arith })
      (inl (refl, refl), (inr refl, (inr refl, (inl (refl, refl), (inl (refl, refl), tt)))))

reads_word_example : Yields (read_token (on_text (codes "if x"))) if_kw (codes "if") (codes " x")
unfolding init is_alpha is_alnum is_positive find_keyword
reads_word_example =
    reads_word (on_text (codes "if x")) b'i' (b'f' ∷ []) b' ' (b'x' ∷ []) refl (omega arith) refl
      (refl, tt) refl refl refl

equals_colon_example : read_token (on_text (codes "=:x")) ≡ fault uninitialised
unfolding init
equals_colon_example = equals_colon b'=' (on_text (codes "=:x")) (b'x' ∷ []) (inl refl) refl refl

-- A deserializer that has nothing to read yet.
abbrev idle : Deserializer
idle = record { src = []; eof = false; obj_map = []; hashed = []; digest_enabled = true }

read_uint-write_uint_example :
    (bs : Bytes) × (write_uint new_serializer 300 ≡ wrote new_serializer bs)
    × (read_uint (record idle { src = bs ++ 7 ∷ [] }) ≡ got 300 (took idle bs (7 ∷ [])))
    × (1 ≤ length bs)
    × (length bs ≤ 5)
read_uint-write_uint_example =
    read_uint-write_uint new_serializer idle 300 (7 ∷ []) (omega arith) refl

read_string-write_string_example :
    (bs : Bytes) × (write_string new_serializer (codes "main") ≡ wrote new_serializer bs)
    × (read_string (record idle { src = bs ++ 7 ∷ [] })
        ≡ got (codes "main") (took idle bs (7 ∷ [])))
read_string-write_string_example =
    read_string-write_string new_serializer idle (codes "main") (7 ∷ []) (omega arith) refl

abbrev a_token : TokenType → Bytes → Token
a_token t text = record { type = t; text = text; loc = no_location }

abbrev quoted : List Token
quoted = a_token istr_begin (codes "`") ∷ a_token string (codes "ab") ∷ []

get_tokens-replay_example :
    get_tokens 2 (replay quoted (on_text []))
    ≡ ok (record (on_text []) { state = state_through (on_text []).state quoted }, quoted)
get_tokens-replay_example = get_tokens-replay quoted (on_text [])

inked-reindent_example :
    (inked (fix_indentation 2 (codes "a\n   b")) ≡ inked (codes "a\n   b"))
    × (inked (reindent (on_text []) (codes "a\n   b")).1 ≡ inked (codes "a\n   b"))
inked-reindent_example = inked-reindent (on_text []) (codes "a\n   b") 2

-- `x is` in a file, as the body of a generic.
abbrev at : ℕ → Location
at column = record { name = codes "a.crk"; line_number = 3; start_col = column; end_col = column }

abbrev small_body : List Token
small_body =
    record { type = ident; text = codes "x"; loc = at 5 }
    ∷ record { type = is_kw; text = codes "is"; loc = at 7 }
    ∷ []

small_body-IsStored : All IsStored small_body
unfolding c_str
small_body-IsStored = (
  record { short = omega arith; named = omega arith; on_line = omega arith; in_line = omega arith },
  (
    record {
      short = omega arith;
      named = omega arith;
      on_line = omega arith;
      in_line = omega arith;
    },
    tt,
  ),
)

-- Two tokens, a file name and a line.
small_body-count : count_tokens [] none small_body ≡ 4
unfolding count_tokens cost c_str same_line next_file next_line
small_body-count = refl

deserialize_body-serialize_body_example :
    (bs : Bytes) × (hs : Bytes) × (serialize_body new_serializer small_body
      ≡ ok (added new_serializer bs hs))
    × (deserialize_body (record idle { src = bs ++ 7 ∷ [] })
        ≡ got (map restored small_body) (took idle hs (7 ∷ [])))
unfolding type_code
deserialize_body-serialize_body_example =
    deserialize_body-serialize_body new_serializer idle small_body (7 ∷ []) small_body-IsStored
      (refl, (refl, tt)) (omega (arith, small_body-count)) refl

serialize_body-moved_example :
    (a : Serializer) × (b : Serializer) × (serialize_body new_serializer small_body ≡ ok a)
    × (serialize_body new_serializer (map (moved (λ t. 40)) small_body) ≡ ok b)
    × (a.hashed ≡ b.hashed)
unfolding c_str
serialize_body-moved_example =
    serialize_body-moved new_serializer small_body (λ t. 40) small_body-IsStored
      (
        record {
          short = omega arith;
          named = omega arith;
          on_line = omega arith;
          in_line = omega arith;
        },
        (
          record {
            short = omega arith;
            named = omega arith;
            on_line = omega arith;
            in_line = omega arith;
          },
          tt,
        ),
      )
      (omega (arith, small_body-count))

new_serializer-IsRelated : IsRelated new_serializer idle
unfolding new_serializer find_id
new_serializer-IsRelated = record { known = λ object id e. cc }

read_object-write_whole_example : Exchanged new_serializer idle 9 (encoding 9) (7 ∷ []) read_uint
unfolding new_serializer
read_object-write_whole_example =
    read_object-write_whole new_serializer idle 9 (encoding 9) (7 ∷ []) read_uint
      new_serializer-IsRelated (omega arith) refl
      (λ z e s. read_uint-took z 9 (7 ∷ []) e (omega arith) s)

unget_char-get_char_example :
    Restored
      (on_text (codes "\n"))
      b'\n'
      (unget_char (record (on_text []) { current_line = 2; save_end_col = 1 }) b'\n')
unfolding init get_char next_char advance
unget_char-get_char_example =
    unget_char-get_char (on_text (codes "\n")) b'\n'
      (record (on_text []) { current_line = 2; save_end_col = 1 }) (omega arith) refl
