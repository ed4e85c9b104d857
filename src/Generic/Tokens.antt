-- ===== src/Generic/Tokens.antt =====
-- What the writer of a generic's body adds to the stream and to the digest.
use crack.Generic.Write.{
  c_str, has_data, serialize_token, serialize_full_token, write_name, write_line, same_line,
  next_file, next_line, write_tokens, count_tokens,
}
use crack.Prelude.{
  ℕ, ◌%◌, ◌^◌, ◌<◌, ◌≡◌, inl, inr, refl, sym, ap, ◌∙◌, false, Bool-cases, Bytes, bytes_eq, [], ◌∷◌,
  List, ◌++◌, append-nil, append_assoc, Option, arith, if◌then◌else◌, length, All,
}
use crack.Serial.Strings.{write_string-wrote}
use crack.Serial.Varint.{encoding, write_uint-wrote}
use crack.Serial.Writer.{Serializer, write_uint, write_string, with_digest, uint_mod}
use crack.Token.{TokenType, Token, type_code, file_name, line_number}

-- Bytes for the stream and bytes for the digest.
abbrev pub added : Serializer → Bytes → Bytes → Serializer
added s bs hs = record s {
  dst = s.dst ++ bs;
  hashed = if s.digest_enabled then s.hashed ++ hs else s.hashed;
}

pub added_nil : (s : Serializer) → added s [] [] ≡ s
added_nil s = ground (arith, append-nil s.dst, append-nil s.hashed)

pub added_twice :
    (s : Serializer) (a x b y : Bytes) → added (added s a x) b y ≡ added s (a ++ b) (x ++ y)
added_twice s a x b y = ground (arith, append_assoc s.dst a b, append_assoc s.hashed x y)

added_quiet :
    (s : Serializer) (v : ℕ)
    → v < uint_mod
    → with_digest false (λ z. write_uint z v) s ≡ added s (encoding v) []
added_quiet s v h =
    rw (write_uint-wrote (record s { digest_enabled = false }) v h)
      (ground (arith, append-nil s.hashed))

abbrev pub coded : Bytes → Bytes
coded bs = encoding (length bs) ++ bs

-- The type and the text of a token, and its column behind them.
abbrev pub head : Token → Bytes
head tok = encoding (type_code tok.type) ++ (if has_data tok.type then coded tok.text else [])

abbrev pub token_bytes : Token → Bytes
token_bytes tok = head tok ++ encoding tok.loc.start_col

-- The tokens that a new name and a new line take.
abbrev pub name_part : Bytes → Token → Bytes
name_part file tok =
    if bytes_eq (c_str tok.loc.name) file
    then []
    else encoding (type_code file_name) ++ coded (c_str tok.loc.name)

abbrev pub line_part : Option ℕ → Token → Bytes
line_part line tok =
    if same_line line tok.loc.line_number
    then []
    else encoding (type_code line_number) ++ encoding tok.loc.line_number

-- What the stream and the source's integers can hold, the end column too.
pub record IsStored (tok : Token) : Type 0 where
  pub short : length tok.text < 2 ^ 30
  pub named : length (c_str tok.loc.name) < uint_mod
  pub on_line : tok.loc.line_number < 2 ^ 31
  pub in_line : tok.loc.start_col < 2 ^ 30

pub type_code-lt : (t : TokenType) → type_code t < uint_mod
unfolding type_code
type_code-lt t = grind arith

typed :
    (s : Serializer) (tok : Token)
    → IsStored tok
    → (if has_data tok.type
        then write_string (write_uint s (type_code tok.type)) tok.text
        else write_uint s (type_code tok.type))
      ≡ added s (head tok) (head tok)
typed s tok h =
    let t = encoding (type_code tok.type) in
    let one : write_uint s (type_code tok.type) ≡ added s t t =
      write_uint-wrote s (type_code tok.type) (type_code-lt tok.type) in
    elim (Bool-cases (has_data tok.type)) [
      | inl e ↦
          rw (e, one, write_string-wrote (added s t t) tok.text (omega (arith, h.short)))
            (added_twice s t t (coded tok.text) (coded tok.text))
      | inr e ↦ rw (e, append-nil) one
    ]

serialize_token-added :
    (s : Serializer) (tok : Token)
    → IsStored tok
    → serialize_token s tok ≡ added s (token_bytes tok) (head tok)
unfolding serialize_token
serialize_token-added s tok h =
    let fits : tok.loc.start_col % uint_mod ≡ tok.loc.start_col = omega (arith, h.in_line) in
    rw fits (
      ap (with_digest false (λ z. write_uint z tok.loc.start_col)) (typed s tok h)
      ∙ added_quiet (added s (head tok) (head tok)) tok.loc.start_col (omega (arith, h.in_line))
      ∙ added_twice s (head tok) (head tok) (encoding tok.loc.start_col) []
      ∙ ap (added s (token_bytes tok)) (append-nil (head tok)))

write_name-added :
    (s : Serializer) (file : Bytes) (tok : Token)
    → IsStored tok
    → write_name s file tok ≡ added s (name_part file tok) (name_part file tok)
unfolding write_name
write_name-added s file tok h =
    let t = encoding (type_code file_name) in
    let n = c_str tok.loc.name in
    elim (Bool-cases (bytes_eq (c_str tok.loc.name) file)) [
      | inl e ↦ rw e (sym (added_nil s))
      | inr e ↦
          rw
            (
              e,
              write_uint-wrote s (type_code file_name) (type_code-lt file_name),
              write_string-wrote (added s t t) n h.named,
            )
            (added_twice s t t (coded n) (coded n))
    ]

write_line-added :
    (s : Serializer) (line : Option ℕ) (tok : Token)
    → IsStored tok
    → write_line s line tok ≡ added s (line_part line tok) (line_part line tok)
unfolding write_line
write_line-added s line tok h =
    let t = encoding (type_code line_number) in
    let l = tok.loc.line_number in
    let fits : l % uint_mod ≡ l = omega (arith, h.on_line) in
    elim (Bool-cases (same_line line tok.loc.line_number)) [
      | inl e ↦ rw e (sym (added_nil s))
      | inr e ↦
          rw
            (
              e,
              fits,
              write_uint-wrote s (type_code line_number) (type_code-lt line_number),
              write_uint-wrote (added s t t) l (omega (arith, h.on_line)),
            )
            (added_twice s t t (encoding l) (encoding l))
    ]

abbrev pub full_bytes : Bytes → Option ℕ → Token → Bytes → Bytes
full_bytes file line tok bs = name_part file tok ++ (line_part line tok ++ bs)

full-added :
    (s : Serializer) (file : Bytes) (line : Option ℕ) (tok : Token)
    → IsStored tok
    → serialize_token (write_line (write_name s file tok) line tok) tok
      ≡ added s (full_bytes file line tok (token_bytes tok)) (full_bytes file line tok (head tok))
full-added s file line tok h =
    let n = name_part file tok in
    let l = line_part line tok in
    ap (λ z. serialize_token (write_line z line tok) tok) (write_name-added s file tok h)
    ∙ ap (λ z. serialize_token z tok) (write_line-added (added s n n) line tok h)
    ∙ serialize_token-added (added (added s n n) l l) tok h
    ∙ added_twice (added s n n) l l (token_bytes tok) (head tok)
    ∙ added_twice s n n (l ++ token_bytes tok) (l ++ head tok)

-- The whole body, in the stream and in the digest.
abbrev pub body_bytes : Bytes → Option ℕ → List Token → Bytes
body_bytes file line [] = []
body_bytes file line (tok ∷ body) =
    full_bytes file line tok (token_bytes tok)
    ++ body_bytes (next_file file tok) (next_line line tok) body

abbrev pub body_heads : Bytes → Option ℕ → List Token → Bytes
body_heads file line [] = []
body_heads file line (tok ∷ body) =
    full_bytes file line tok (head tok) ++ body_heads (next_file file tok) (next_line line tok) body

pub write_tokens-added :
    (s : Serializer) (file : Bytes) (line : Option ℕ) (body : List Token)
    → All IsStored body
    → write_tokens s file line body ≡ (
      added s (body_bytes file line body) (body_heads file line body),
      count_tokens file line body,
    )
unfolding write_tokens serialize_full_token count_tokens
write_tokens-added s file line [] h = sym (ap (λ z. (z, 0)) (added_nil s))
write_tokens-added s file line (tok ∷ body) h =
    let b = full_bytes file line tok (token_bytes tok) in
    let x = full_bytes file line tok (head tok) in
    let file' = next_file file tok in
    let line' = next_line line tok in
    let rest = write_tokens-added (added s b x) file' line' body h.1 in
    let whole = added_twice s b x (body_bytes file' line' body) (body_heads file' line' body) in
    rw (full-added s file line tok h.0, rest, whole) refl
