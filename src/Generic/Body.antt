-- ===== src/Generic/Body.antt =====
-- A generic's body, written and read (model/Generic.cc).
use crack.Generic.Read.{read_tokens, deserialize_token}
use crack.Generic.Stored.{
  IsPlain, placed, mark, more_kept, more_marked, read_name, read_line, deserialize_token-took,
}
use crack.Generic.Tokens.{
  IsStored, head, token_bytes, name_part, line_part, full_bytes, body_bytes, body_heads, coded,
}
use crack.Generic.Write.{c_str, same_line, next_file, next_line, cost, count_tokens}
use crack.Prelude.{
  ℕ, suc, ◌+◌, ◌==◌, ◌≡◌, inl, inr, refl, sym, ap, ◌∙◌, false, Bool-cases, Bytes, bytes_eq,
  bytes_eq_iff, [], ◌∷◌, List, ◌++◌, append-nil, append_assoc, Option, some, none, arith,
  if◌then◌else◌, All,
}
use crack.Serial.Reader.{Deserializer, got}
use crack.Serial.Strings.{took_both}
use crack.Serial.Varint.{encoding, took}
use crack.Token.{Token, type_code, file_name, line_number}
use mathlib.Core.List.{map}

c_str-twice : (bs : Bytes) → c_str (c_str bs) ≡ c_str bs
unfolding c_str
c_str-twice [] = refl
c_str-twice (c ∷ cs) = elim (Bool-cases (c == 0)) [
  | inl e ↦ rw e refl
  | inr e ↦ rw e (rw e (ap (◌∷◌ c) (c_str-twice cs)))
]

next_file-name : (file : Bytes) (tok : Token) → next_file file tok ≡ c_str tok.loc.name
unfolding next_file
next_file-name file tok = ground (arith, bytes_eq_iff (c_str tok.loc.name) file)

next_line-line : (line : Option ℕ) (tok : Token) → next_line line tok ≡ some tok.loc.line_number
unfolding next_line same_line
next_line-line none tok = refl
next_line-line (some l) tok = ground arith

took_none : (d : Deserializer) (rest : Bytes) → d.src ≡ rest → took d [] rest ≡ d
took_none d rest s = ground (arith, append-nil d.hashed)

-- The round for the name, where there is one.
name_step :
    (m : ℕ) (file : Bytes) (line : Option ℕ) (tok : Token) (d d3 : Deserializer) (rest : Bytes)
    (ts : List Token)
    → IsStored tok
    → d.eof ≡ false
    → d.src ≡ name_part file tok ++ rest
    → read_tokens m (next_file file tok) line (took d (name_part file tok) rest) ≡ got ts d3
    → read_tokens ((if bytes_eq (c_str tok.loc.name) file then 0 else 1) + m) file line d
      ≡ got ts d3
unfolding next_file type_code
name_step m file line tok d d3 rest ts h e s k =
    elim (Bool-cases (bytes_eq (c_str tok.loc.name) file)) [
      | inl b ↦
          let s' : d.src ≡ rest = rw b at s in
          let k' : read_tokens m file line (took d [] rest) ≡ got ts d3 = rw b at k in
          let same : 0 + m ≡ m = omega arith in
          rw b (
            ap (λ n. read_tokens n file line d) same
            ∙ sym (ap (read_tokens m file line) (took_none d rest s'))
            ∙ k')
      | inr b ↦
          let name = c_str tok.loc.name in
          let part = encoding (type_code file_name) ++ coded name in
          let s' : d.src ≡ part ++ rest = rw b at s in
          let k' : read_tokens m name line (took d part rest) ≡ got ts d3 = rw b at k in
          let one : 1 + m ≡ suc m = omega arith in
          rw b (
            ap (λ n. read_tokens n file line d) one
            ∙ more_marked m file name line line d (took d part rest) d3 (mark file_name) ts
                (read_name name file line d rest h.named e s') refl k')
    ]

line_step :
    (m : ℕ) (file : Bytes) (line : Option ℕ) (tok : Token) (d d3 : Deserializer) (rest : Bytes)
    (ts : List Token)
    → IsStored tok
    → d.eof ≡ false
    → d.src ≡ line_part line tok ++ rest
    → read_tokens m file (next_line line tok) (took d (line_part line tok) rest) ≡ got ts d3
    → read_tokens ((if same_line line tok.loc.line_number then 0 else 1) + m) file line d
      ≡ got ts d3
unfolding next_line type_code
line_step m file line tok d d3 rest ts h e s k =
    elim (Bool-cases (same_line line tok.loc.line_number)) [
      | inl b ↦
          let s' : d.src ≡ rest = rw b at s in
          let k' : read_tokens m file line (took d [] rest) ≡ got ts d3 = rw b at k in
          let same : 0 + m ≡ m = omega arith in
          rw b (
            ap (λ n. read_tokens n file line d) same
            ∙ sym (ap (read_tokens m file line) (took_none d rest s'))
            ∙ k')
      | inr b ↦
          let l = tok.loc.line_number in
          let part = encoding (type_code line_number) ++ encoding l in
          let s' : d.src ≡ part ++ rest = rw b at s in
          let k' : read_tokens m file (some l) (took d part rest) ≡ got ts d3 = rw b at k in
          let one : 1 + m ≡ suc m = omega arith in
          rw b (
            ap (λ n. read_tokens n file line d) one
            ∙ more_marked m file file line (some l) d (took d part rest) d3 (mark line_number) ts
                (read_line l file line d rest (omega (arith, h.on_line)) e s') refl k')
    ]

-- A token as it comes back.
abbrev pub restored : Token → Token
restored tok = placed tok (c_str tok.loc.name) tok.loc.line_number

here_read :
    (file : Bytes) (line : Option ℕ) (tok : Token) (d : Deserializer) (rest : Bytes)
    → IsPlain tok
    → IsStored tok
    → d.eof ≡ false
    → d.src ≡ token_bytes tok ++ rest
    → deserialize_token (next_file file tok) (next_line line tok) d
      ≡ got (restored tok, next_file file tok, next_line line tok) (took d (head tok) rest)
here_read file line tok d rest p h e s =
    let name = c_str tok.loc.name in
    let l = tok.loc.line_number in
    rw (next_line-line line tok, next_file-name file tok)
      (deserialize_token-took tok name l d rest p h e s
        ∙ ap (λ z. got (placed tok z l, name, some l) (took d (head tok) rest))
            (c_str-twice tok.loc.name))

token_step :
    (n : ℕ) (file : Bytes) (line : Option ℕ) (tok : Token) (d d3 : Deserializer) (rest : Bytes)
    (ts : List Token)
    → IsPlain tok
    → IsStored tok
    → d.eof ≡ false
    → d.src ≡ full_bytes file line tok (token_bytes tok) ++ rest
    → read_tokens n
        (next_file file tok)
        (next_line line tok)
        (took d (full_bytes file line tok (head tok)) rest)
      ≡ got ts d3
    → read_tokens (cost file line tok + n) file line d ≡ got (restored tok ∷ ts) d3
unfolding cost
token_step n file line tok d d3 rest ts p h e s k =
    let np = name_part file tok in
    let lp = line_part line tok in
    let tb = token_bytes tok in
    let s' : d.src ≡ np ++ (lp ++ (tb ++ rest)) =
      s ∙ append_assoc np (lp ++ tb) rest ∙ ap (◌++◌ np) (append_assoc lp tb rest) in
    let d1 : Deserializer = took d np (lp ++ (tb ++ rest)) in
    let d2 : Deserializer = took d1 lp (tb ++ rest) in
    let all : took d2 (head tok) rest ≡ took d (np ++ (lp ++ head tok)) rest =
      took_both d1 lp (head tok) (tb ++ rest) rest
      ∙ took_both d np (lp ++ head tok) (lp ++ (tb ++ rest)) rest in
    let file' = next_file file tok in
    let line' = next_line line tok in
    ap (λ m. read_tokens m file line d) (omega arith)
    ∙ name_step _ file line tok d d3 (lp ++ (tb ++ rest)) (restored tok ∷ ts) h e s' (
        line_step (suc n) file' line tok d1 d3 (tb ++ rest) (restored tok ∷ ts) h e refl (
          more_kept n file' file' line' line' d2 (took d2 (head tok) rest) d3 (restored tok) ts
            (here_read file line tok d2 rest p h e refl) p
            (ap (read_tokens n file' line') all ∙ k)))

pub read_tokens-took :
    (file : Bytes) (line : Option ℕ) (body : List Token) (d : Deserializer) (rest : Bytes)
    → All IsPlain body
    → All IsStored body
    → d.eof ≡ false
    → d.src ≡ body_bytes file line body ++ rest
    → read_tokens (count_tokens file line body) file line d
      ≡ got (map restored body) (took d (body_heads file line body) rest)
unfolding count_tokens read_tokens
read_tokens-took file line [] d rest p h e s = ap (got []) (sym (took_none d rest s))
read_tokens-took file line (tok ∷ body) d rest p h e s =
    let file' = next_file file tok in
    let line' = next_line line tok in
    let b = full_bytes file line tok (token_bytes tok) in
    let x = full_bytes file line tok (head tok) in
    let mid = body_bytes file' line' body ++ rest in
    let s' : d.src ≡ b ++ mid = s ∙ append_assoc b (body_bytes file' line' body) rest in
    token_step (count_tokens file' line' body) file line tok d
      (took d (body_heads file line (tok ∷ body)) rest) mid (map restored body) p.0 h.0 e s'
      (read_tokens-took file' line' body (took d x mid) rest p.1 h.1 e refl
        ∙ ap (got (map restored body)) (took_both d x (body_heads file' line' body) mid rest))
