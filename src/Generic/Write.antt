-- ===== src/Generic/Write.antt =====
-- Generic::serializeToken, Generic::serializeFullToken and the part on the body of
-- Generic::serialize (model/Generic.cc, lines 79 to 99, 190 to 211 and 231 to 267).
use crack.Prelude.{
  ℕ, ◌+◌, ◌%◌, ◌==◌, Bool, true, false, if◌then◌else◌, Option, some, none, List, [], ◌∷◌, Bytes,
  bytes_eq, Outcome, ok, fault, assertion,
}
use crack.Serial.Writer.{Serializer, write_uint, write_string, with_digest, uint_mod}
use crack.Token.{
  TokenType, Token, type_code, file_name, line_number, integer, string, ident, float_lit, octal_lit,
  hex_lit, bin_lit,
}

-- A C string ends before its first zero byte.
unfoldable pub c_str : Bytes → Bytes
c_str [] = []
c_str (c ∷ cs) = if c == 0 then [] else c ∷ c_str cs

-- The types whose text is stored.
unfoldable pub has_data : TokenType → Bool
has_data integer = true
has_data string = true
has_data ident = true
has_data float_lit = true
has_data octal_lit = true
has_data hex_lit = true
has_data bin_lit = true
has_data _ = false

unfoldable pub serialize_token : Serializer → Token → Serializer
unfolding write_uint write_string has_data
serialize_token s tok =
    let s' = write_uint s (type_code tok.type) in
    let s'' = if has_data tok.type then write_string s' tok.text else s' in
    with_digest false (λ z. write_uint z (tok.loc.start_col % uint_mod)) s''

-- `none` is the source's -1.
unfoldable pub same_line : Option ℕ → ℕ → Bool
same_line none line = false
same_line (some l) line = line == l

-- The name and the line that hold behind a token.
unfoldable pub next_file : Bytes → Token → Bytes
unfolding c_str
next_file file tok = if bytes_eq (c_str tok.loc.name) file then file else c_str tok.loc.name

unfoldable pub next_line : Option ℕ → Token → Option ℕ
unfolding same_line
next_line line tok = if same_line line tok.loc.line_number then line else some tok.loc.line_number

-- How many tokens one token takes: a new name and a new line are tokens of their own.
unfoldable pub cost : Bytes → Option ℕ → Token → ℕ
unfolding c_str same_line
cost file line tok =
    (if bytes_eq (c_str tok.loc.name) file then 0 else 1)
    + (if same_line line tok.loc.line_number then 0 else 1)
    + 1

unfoldable pub write_name : Serializer → Bytes → Token → Serializer
unfolding write_uint write_string c_str
write_name s file tok =
    if bytes_eq (c_str tok.loc.name) file
    then s
    else write_string (write_uint s (type_code file_name)) (c_str tok.loc.name)

unfoldable pub write_line : Serializer → Option ℕ → Token → Serializer
unfolding write_uint same_line
write_line s line tok =
    if same_line line tok.loc.line_number
    then s
    else write_uint (write_uint s (type_code line_number)) (tok.loc.line_number % uint_mod)

-- Behind it the caller's name and line, and how many tokens were written.
unfoldable pub serialize_full_token :
    Serializer → Bytes → Option ℕ → Token → Serializer × Bytes × Option ℕ × ℕ
unfolding write_name write_line serialize_token next_file next_line cost
serialize_full_token s file line tok = (
  serialize_token (write_line (write_name s file tok) line tok) tok,
  next_file file tok,
  next_line line tok,
  cost file line tok,
)

-- `numTokens`
unfoldable pub count_tokens : Bytes → Option ℕ → List Token → ℕ
unfolding cost next_file next_line
count_tokens file line [] = 0
count_tokens file line (tok ∷ body) =
    cost file line tok + count_tokens (next_file file tok) (next_line line tok) body

-- The tokens, and `recount`.
unfoldable pub write_tokens : Serializer → Bytes → Option ℕ → List Token → Serializer × ℕ
unfolding serialize_full_token
write_tokens s file line [] = (s, 0)
write_tokens s file line (tok ∷ body) =
    let (s', file', line', n) = serialize_full_token s file line tok in
    let (last, recount) = write_tokens s' file' line' body in (last, n + recount)

-- SPUG_CHECK compares the two counts; the empty `optional` part comes last.
unfoldable pub serialize_body : Serializer → List Token → Outcome Serializer
unfolding count_tokens write_tokens write_uint
serialize_body s body =
    let n = count_tokens [] none body in
    let (last, recount) = write_tokens (write_uint s (n % uint_mod)) [] none body in
    if recount == n then ok (write_uint last 0) else fault assertion
