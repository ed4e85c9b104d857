-- ===== src/Toker/Step/Comments.antt =====
-- Comments and doc comments (parser/Toker.cc, lines 543 to 586).
use crack.Prelude.{ℕ, ◌==◌, not, if◌then◌else◌, [], ◌∷◌, Bytes, Outcome, ok, ◌>>=◌}
use crack.Token.{doc}
use crack.Toker.State.{Toker, st_none, st_ccomment, st_ccomment2}
use crack.Toker.Scan.{Scan, Step, more, emit, enter, go, put, need}

-- `val[0]`, which is the terminating zero of an empty string.
unfoldable pub first_byte : Bytes → ℕ
first_byte [] = 0
first_byte (c ∷ cs) = c

-- `val.substr(1)`
unfoldable pub drop_first : Bytes → Bytes
drop_first [] = []
drop_first (c ∷ cs) = cs

unfoldable pub step_comment : Toker → Scan → ℕ → Outcome Step
unfolding first_byte drop_first
step_comment tk sc0 c =
    let sc = put sc0 c in
    if c == b'\n'
    then (do
      mark ← need sc.comment_char
      if first_byte sc.buf == mark
          then emit (enter tk st_none) doc (drop_first sc.buf)
          else go tk st_none (record sc { buf = [] }))
    else ok (more tk sc)

unfoldable pub step_ccomment : Toker → Scan → ℕ → Outcome Step
step_ccomment tk sc c = if c == b'*' then go tk st_ccomment2 sc else ok (more tk (put sc c))

unfoldable pub step_ccomment2 : Toker → Scan → ℕ → Outcome Step
unfolding first_byte drop_first
step_ccomment2 tk sc c =
    if c == b'/'
    then if first_byte sc.buf == b'*'
      then emit (enter tk st_none) doc (drop_first sc.buf)
      else go tk st_none (record sc { buf = [] })
    else if not (c == b'*')
    then go tk st_ccomment (put (put sc b'*') c)
    else ok (more tk (put (put sc b'*') b'*'))
