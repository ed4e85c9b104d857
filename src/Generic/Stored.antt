-- ===== src/Generic/Stored.antt =====
-- One token of a generic, and the marks of names and lines, written and read (model/Generic.cc).
use crack.Generic.Read.{
  token_text, read_column, read_location, read_token_of, read_typed, deserialize_token, keep,
  read_tokens,
}
use crack.Generic.Tokens.{IsStored, head, token_bytes, coded, type_code-lt}
use crack.Generic.Write.{c_str, has_data}
use crack.Location.{no_location}
use crack.Prelude.{
  ℕ, suc, ◌+◌, ◌<◌, ltb, ◌≡◌, inl, inr, refl, ap, ◌∙◌, true, false, Bool-cases, Bytes, [], ◌∷◌,
  List, ◌++◌, append-nil, append_assoc, Option, some, arith, if◌then◌else◌, length,
}
use crack.Serial.Reader.{Deserializer, got, ◌then_read◌, read_string}
use crack.Serial.Strings.{read_string-took, took_both}
use crack.Serial.Varint.{encoding, took, read_uint-took}
use crack.Serial.Writer.{uint_mod}
use crack.Token.Codes.{type_of_code, type_of_code-type_code}
use crack.Token.{TokenType, Token, type_code, file_name, line_number}

-- A token that is no mark of a name or of a line.
abbrev pub IsPlain : Token → Type 0
IsPlain tok = ltb (type_code tok.type) (type_code file_name) ≡ true

abbrev pub stored_text : Token → Bytes
stored_text tok = if has_data tok.type then tok.text else token_text tok.type

abbrev pub built : TokenType → Bytes → Bytes → ℕ → ℕ → Token
built type text file l v = record {
  type = type;
  text = text;
  loc = record { name = file; line_number = l; start_col = v; end_col = v + length text };
}

-- The token in a file and on a line, as it comes back.
abbrev pub placed : Token → Bytes → ℕ → Token
placed tok file l = built tok.type (stored_text tok) file l tok.loc.start_col

read_column-took :
    (d : Deserializer) (v : ℕ) (rest : Bytes)
    → d.eof ≡ false
    → v < uint_mod
    → d.src ≡ encoding v ++ rest
    → read_column d ≡ got v (took d [] rest)
unfolding read_column
read_column-took d v rest e h s =
    let off : Deserializer = record d { digest_enabled = false } in
    ap (λ r. r then_read λ column d'. got column (record d' { digest_enabled = d.digest_enabled }))
      (read_uint-took off v rest e h s)
    ∙ ap (got v) (ground (arith, append-nil d.hashed))

read_location-took :
    (type : TokenType) (text file : Bytes) (l v : ℕ) (d : Deserializer) (rest : Bytes)
    → d.eof ≡ false
    → v < uint_mod
    → d.src ≡ encoding v ++ rest
    → read_location type text file (some l) d
      ≡ got (built type text (c_str file) l v, file, some l) (took d [] rest)
unfolding read_location
read_location-took type text file l v d rest e h s = rw (read_column-took d v rest e h s) refl

plain_read :
    (t : TokenType) (file : Bytes) (line : Option ℕ) (d : Deserializer)
    → ltb (type_code t) (type_code file_name) ≡ true
    → read_token_of t file line d ≡ (
        if has_data t
        then (read_string d then_read λ text d'. read_location t text file line d')
        else read_location t (token_text t) file line d)
unfolding read_token_of type_code
plain_read file_name file line d p = cc
plain_read line_number file line d p = cc
plain_read _ file line d p = refl

took_nothing :
    (d : Deserializer) (xs mid rest : Bytes) → took (took d xs mid) [] rest ≡ took d xs rest
took_nothing d xs mid rest = took_both d xs [] mid rest ∙ ap (λ z. took d z rest) (append-nil xs)

-- The text of a token, where its type has one.
abbrev data_part : Token → Bytes
data_part tok = if has_data tok.type then coded tok.text else []

-- The text of a token and its column, behind its type.
read_text :
    (tok : Token) (file : Bytes) (l : ℕ) (d : Deserializer) (rest : Bytes)
    → IsPlain tok
    → IsStored tok
    → d.eof ≡ false
    → d.src ≡ data_part tok ++ (encoding tok.loc.start_col ++ rest)
    → read_token_of tok.type file (some l) d
      ≡ got (placed tok (c_str file) l, file, some l) (took d (data_part tok) rest)
read_text tok file l d rest p h e s =
    let v = tok.loc.start_col in
    let mid = encoding v ++ rest in
    let low : v < uint_mod = omega (arith, h.in_line) in
    elim (Bool-cases (has_data tok.type)) [
      | inl has ↦
          let s' : d.src ≡ encoding (length tok.text) ++ (tok.text ++ mid) =
            s
            ∙ ap (λ b. (if b then coded tok.text else []) ++ mid) has
            ∙ append_assoc (encoding (length tok.text)) tok.text mid in
          let d' : Deserializer = took d (coded tok.text) mid in
          plain_read tok.type file (some l) d p
          ∙ rw has (
              ap (λ r. r then_read λ text z. read_location tok.type text file (some l) z)
                (read_string-took d tok.text mid e (omega (arith, h.short)) s')
              ∙ read_location-took tok.type tok.text file l v d' rest e low refl
              ∙ ap (got (built tok.type tok.text (c_str file) l v, file, some l))
                  (took_nothing d (coded tok.text) mid rest))
      | inr has ↦
          let s' : d.src ≡ mid = s ∙ ap (λ b. (if b then coded tok.text else []) ++ mid) has in
          plain_read tok.type file (some l) d p
          ∙ rw has (read_location-took tok.type (token_text tok.type) file l v d rest e low s')
    ]

pub deserialize_token-took :
    (tok : Token) (file : Bytes) (l : ℕ) (d : Deserializer) (rest : Bytes)
    → IsPlain tok
    → IsStored tok
    → d.eof ≡ false
    → d.src ≡ token_bytes tok ++ rest
    → deserialize_token file (some l) d
      ≡ got (placed tok (c_str file) l, file, some l) (took d (head tok) rest)
unfolding deserialize_token read_typed
deserialize_token-took tok file l d rest p h e s =
    let t = encoding (type_code tok.type) in
    let mid = data_part tok ++ (encoding tok.loc.start_col ++ rest) in
    let s' : d.src ≡ t ++ mid =
      s
      ∙ append_assoc (head tok) (encoding tok.loc.start_col) rest
      ∙ append_assoc t (data_part tok) (encoding tok.loc.start_col ++ rest) in
    ap (λ r. r then_read λ code z. read_typed (type_of_code code) file (some l) z)
      (read_uint-took d (type_code tok.type) mid e (type_code-lt tok.type) s')
    ∙ ap (λ o. read_typed o file (some l) (took d t mid)) (type_of_code-type_code tok.type)
    ∙ read_text tok file l (took d t mid) rest p h e refl
    ∙ ap (got (placed tok (c_str file) l, file, some l)) (took_both d t (data_part tok) mid rest)

-- One more round of the loop, over a token that is kept.
pub more_kept :
    (n : ℕ) (file file' : Bytes) (line line' : Option ℕ) (d d' d3 : Deserializer) (t : Token)
    (ts : List Token)
    → deserialize_token file line d ≡ got (t, file', line') d'
    → IsPlain t
    → read_tokens n file' line' d' ≡ got ts d3
    → read_tokens (suc n) file line d ≡ got (t ∷ ts) d3
unfolding read_tokens
more_kept n file file' line line' d d' d3 t ts e p k =
    ap (λ r. r then_read λ r z. read_tokens n r.1 r.2 z then_read λ us y. got (keep r.0 us) y) e
    ∙ ap (λ r. r then_read λ us y. got (keep t us) y) k
    ∙ rw p refl

-- And over one that is a mark.
pub more_marked :
    (n : ℕ) (file file' : Bytes) (line line' : Option ℕ) (d d' d3 : Deserializer) (t : Token)
    (ts : List Token)
    → deserialize_token file line d ≡ got (t, file', line') d'
    → ltb (type_code t.type) (type_code file_name) ≡ false
    → read_tokens n file' line' d' ≡ got ts d3
    → read_tokens (suc n) file line d ≡ got ts d3
unfolding read_tokens
more_marked n file file' line line' d d' d3 t ts e p k =
    ap (λ r. r then_read λ r z. read_tokens n r.1 r.2 z then_read λ us y. got (keep r.0 us) y) e
    ∙ ap (λ r. r then_read λ us y. got (keep t us) y) k
    ∙ rw p refl

abbrev pub mark : TokenType → Token
mark type = record { type = type; text = []; loc = no_location }

pub read_name :
    (name file : Bytes) (line : Option ℕ) (d : Deserializer) (rest : Bytes)
    → length name < uint_mod
    → d.eof ≡ false
    → d.src ≡ (encoding (type_code file_name) ++ coded name) ++ rest
    → deserialize_token file line d
      ≡ got
          (mark file_name, name, line)
          (took d (encoding (type_code file_name) ++ coded name) rest)
unfolding deserialize_token read_typed read_token_of
read_name name file line d rest h e s =
    let t = encoding (type_code file_name) in
    let mid = encoding (length name) ++ (name ++ rest) in
    let s' : d.src ≡ t ++ mid =
      s
      ∙ append_assoc t (coded name) rest
      ∙ ap (◌++◌ t) (append_assoc (encoding (length name)) name rest) in
    ap (λ r. r then_read λ code z. read_typed (type_of_code code) file line z)
      (read_uint-took d (type_code file_name) mid e (type_code-lt file_name) s')
    ∙ ap (λ o. read_typed o file line (took d t mid)) (type_of_code-type_code file_name)
    ∙ ap (λ r. r then_read λ f z. got (mark file_name, f, line) z)
        (read_string-took (took d t mid) name rest e h refl)
    ∙ ap (got (mark file_name, name, line)) (took_both d t (coded name) mid rest)

pub read_line :
    (l : ℕ) (file : Bytes) (line : Option ℕ) (d : Deserializer) (rest : Bytes)
    → l < uint_mod
    → d.eof ≡ false
    → d.src ≡ (encoding (type_code line_number) ++ encoding l) ++ rest
    → deserialize_token file line d
      ≡ got
          (mark line_number, file, some l)
          (took d (encoding (type_code line_number) ++ encoding l) rest)
unfolding deserialize_token read_typed read_token_of
read_line l file line d rest h e s =
    let t = encoding (type_code line_number) in
    let mid = encoding l ++ rest in
    let s' : d.src ≡ t ++ mid = s ∙ append_assoc t (encoding l) rest in
    ap (λ r. r then_read λ code z. read_typed (type_of_code code) file line z)
      (read_uint-took d (type_code line_number) mid e (type_code-lt line_number) s')
    ∙ ap (λ o. read_typed o file line (took d t mid)) (type_of_code-type_code line_number)
    ∙ ap (λ r. r then_read λ m z. got (mark line_number, file, some m) z)
        (read_uint-took (took d t mid) l rest e h refl)
    ∙ ap (got (mark line_number, file, some l)) (took_both d t (encoding l) mid rest)
