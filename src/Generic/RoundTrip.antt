-- ===== src/Generic/RoundTrip.antt =====
-- The body of a generic through the cache: what is written, what is read, and what the digest sees.
use crack.Generic.Body.{restored, read_tokens-took}
use crack.Generic.Read.{deserialize_body, read_tokens}
use crack.Generic.Stored.{IsPlain}
use crack.Generic.Tokens.{IsStored, body_bytes, body_heads, added, added_twice, write_tokens-added}
use crack.Generic.Write.{count_tokens, serialize_body}
use crack.Prelude.{
  ◌^◌, ◌%◌, ◌<◌, ◌==◌, ◌≡◌, refl, ap, ◌∙◌, true, false, Bytes, [], List, ◌++◌, append-nil,
  append_assoc, none, arith, All, ok,
}
use crack.Serial.Reader.{Deserializer, got, ◌then_read◌, read_string}
use crack.Serial.Strings.{took_both, read_string-took}
use crack.Serial.Varint.{encoding, took, read_uint-took, write_uint-wrote}
use crack.Serial.Writer.{Serializer, uint_mod}
use crack.Token.{Token}
use mathlib.Core.List.{map}

-- The count, the tokens and the empty `optional` part.
abbrev pub stream : List Token → Bytes → Bytes
stream body bs = encoding (count_tokens [] none body) ++ (bs ++ encoding 0)

pub serialize_body-added :
    (s : Serializer) (body : List Token)
    → All IsStored body
    → count_tokens [] none body < uint_mod
    → serialize_body s body
      ≡ ok (added s (stream body (body_bytes [] none body)) (stream body (body_heads [] none body)))
unfolding serialize_body
serialize_body-added s body h c =
    let n = count_tokens [] none body in
    let e = encoding n in
    let b = body_bytes [] none body in
    let x = body_heads [] none body in
    let fits : n % uint_mod ≡ n = omega arith in
    let same : (n == n) ≡ true = ground arith in
    let first = write_uint-wrote s n c in
    let tokens = write_tokens-added (added s e e) [] none body h in
    let last = write_uint-wrote (added (added s e e) b x) 0 (omega arith) in
    let all =
      added_twice (added s e e) b x (encoding 0) (encoding 0)
      ∙ added_twice s e e (b ++ encoding 0) (x ++ encoding 0) in
    rw (fits, first, tokens, same, last, all) refl

deserialize_body-took :
    (d : Deserializer) (body : List Token) (rest : Bytes)
    → All IsPlain body
    → All IsStored body
    → count_tokens [] none body < uint_mod
    → d.eof ≡ false
    → d.src ≡ stream body (body_bytes [] none body) ++ rest
    → deserialize_body d
      ≡ got (map restored body) (took d (stream body (body_heads [] none body)) rest)
unfolding deserialize_body
deserialize_body-took d body rest p h c e s =
    let n = count_tokens [] none body in
    let t = encoding n in
    let b = body_bytes [] none body in
    let x = body_heads [] none body in
    let end = encoding 0 ++ rest in
    let s' : d.src ≡ t ++ (b ++ end) =
      s ∙ append_assoc t (b ++ encoding 0) rest ∙ ap (◌++◌ t) (append_assoc b (encoding 0) rest) in
    let d1 : Deserializer = took d t (b ++ end) in
    let d2 : Deserializer = took d1 x end in
    let ts = map restored body in
    ap
      (λ r. r then_read λ count z. read_tokens count [] none z then_read λ us y.
        read_string y then_read λ optional w. got us w)
      (read_uint-took d n (b ++ end) e c s')
    ∙ ap (λ r. r then_read λ us y. read_string y then_read λ optional w. got us w)
        (read_tokens-took [] none body d1 end p h e refl)
    ∙ ap (λ r. r then_read λ optional w. got ts w)
        (read_string-took d2 [] rest e (omega arith) refl)
    ∙ ap (λ z. got ts (took d2 z rest)) (append-nil (encoding 0))
    ∙ ap (got ts)
        (took_both d1 x (encoding 0) end rest ∙ took_both d t (x ++ encoding 0) (b ++ end) rest)

-- A body of tokens whose texts are shorter and whose columns are below 2 to the 30, whose file names
-- are shorter than 2 to the 32 and whose lines are below 2 to the 31, none of them a mark of a name or
-- a line, and which takes fewer than 2 to the 31 stored tokens: serializing it succeeds, its two counts
-- of tokens agree, and a deserializer that has not met its stream's end reads there the same tokens in
-- the same order, each with its type, file name, line and start column, and with its text where the
-- type stores one and else the text that the type stands for. Exactly what follows the body is left,
-- and where both digests are on, the two hash the same bytes.
pub deserialize_body-serialize_body :
    (s : Serializer) (d : Deserializer) (body : List Token) (rest : Bytes)
    → All IsStored body
    → All IsPlain body
    → count_tokens [] none body < 2 ^ 31
    → d.eof ≡ false
    → (bs : Bytes) × (hs : Bytes) × (serialize_body s body ≡ ok (added s bs hs))
      × (deserialize_body (record d { src = bs ++ rest })
          ≡ got (map restored body) (took d hs rest))
deserialize_body-serialize_body s d body rest h p c e = (
  stream body (body_bytes [] none body),
  stream body (body_heads [] none body),
  serialize_body-added s body h (omega (arith, c)),
  deserialize_body-took (record d { src = stream body (body_bytes [] none body) ++ rest }) body rest
      p h (omega (arith, c)) e refl,
)
