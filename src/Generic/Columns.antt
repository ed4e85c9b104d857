-- ===== src/Generic/Columns.antt =====
-- The digest of a generic's body and the columns of its tokens (model/Generic.cc).
use crack.Generic.RoundTrip.{stream, serialize_body-added}
use crack.Generic.Tokens.{full_bytes, head, IsStored, body_bytes, body_heads, added}
use crack.Generic.Write.{count_tokens, cost, next_file, next_line, serialize_body}
use crack.Prelude.{
  ℕ, ◌+◌, ◌^◌, arith, ◌<◌, ◌≡◌, refl, ap, Bytes, [], ◌∷◌, List, ◌++◌, Option, none, All, ok,
}
use crack.Serial.Writer.{Serializer}
use crack.Token.{Token}
use mathlib.Core.List.{map}

-- A token at other columns.
abbrev pub moved : (Token → ℕ) → Token → Token
moved column tok = record tok {
  loc = record tok.loc { start_col = column tok; end_col = column tok };
}

body_heads-moved :
    (column : Token → ℕ) (file : Bytes) (line : Option ℕ) (body : List Token)
    → body_heads file line (map (moved column) body) ≡ body_heads file line body
unfolding next_file next_line
body_heads-moved column file line [] = refl
body_heads-moved column file line (tok ∷ body) =
    ap (λ z. full_bytes file line tok (head tok) ++ z)
      (body_heads-moved column (next_file file tok) (next_line line tok) body)

count_tokens-moved :
    (column : Token → ℕ) (file : Bytes) (line : Option ℕ) (body : List Token)
    → count_tokens file line (map (moved column) body) ≡ count_tokens file line body
unfolding count_tokens cost next_file next_line
count_tokens-moved column file line [] = refl
count_tokens-moved column file line (tok ∷ body) =
    ap (λ z. cost file line tok + z)
      (count_tokens-moved column (next_file file tok) (next_line line tok) body)

-- For a body of tokens whose texts are shorter and whose columns are below 2 to the 30, whose file
-- names are shorter than 2 to the 32 and whose lines are below 2 to the 31, and which takes fewer than
-- 2 to the 31 stored tokens, and for the same body with its tokens moved to other such columns: both
-- are serialized, and the bytes that the digest has seen are the same.
pub serialize_body-moved :
    (s : Serializer) (body : List Token) (column : Token → ℕ)
    → All IsStored body
    → All IsStored (map (moved column) body)
    → count_tokens [] none body < 2 ^ 31
    → (a : Serializer) × (b : Serializer) × (serialize_body s body ≡ ok a)
      × (serialize_body s (map (moved column) body) ≡ ok b)
      × (a.hashed ≡ b.hashed)
serialize_body-moved s body column h k c =
    let there' = map (moved column) body in
    let n = count_tokens-moved column [] none body in
    (
      added s (stream body (body_bytes [] none body)) (stream body (body_heads [] none body)),
      added s (stream there' (body_bytes [] none there'))
          (stream there' (body_heads [] none there')),
      serialize_body-added s body h (omega (arith, c)),
      serialize_body-added s there' k (omega (arith, c, n)),
      rw (n, body_heads-moved column [] none body) refl,
    )
