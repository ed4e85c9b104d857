-- ===== src/Toker/Safety/Loop.antt =====
-- Toker::readToken as a whole, over texts that keep clear of the colon behind `=` or `!`.
use crack.Location.{Location}
use crack.Prelude.{
  ℕ, zero, suc, ◌+◌, ◌*◌, ◌≤◌, ◌<◌, ◌≡◌, inl, refl, true, Bytes, arith, length, length-append,
  count, Outcome, ok, parse_error,
}
use crack.Token.{Token}
use crack.Toker.Read.{read_token, read_loop, round, may_read}
use crack.Toker.Safety.Round.{round-Post}
use crack.Toker.Safety.{Before, Delivered, Post, goes, delivers, fails, Clear, pending, rank, here}
use crack.Toker.Scan.{Scan, Step, fresh}
use crack.Toker.State.{Toker, State, left, st_none, st_interp_none, st_istr}

-- What a call may return: a token, or the exception of the source.
pub data Reads (text : Bytes) (total : ℕ) : Outcome (Toker × Token) → Type 0 where
  reads : {tk : Toker} {tok : Token} → Delivered text total tk tok → Reads text total (ok (tk, tok))
  refuses : {l : Location} {msg : Bytes} → Reads text total (parse_error l msg)

module _ {text : Bytes} {total : ℕ} where
  -- The fuel falls with the characters left and the rank of the state.
  loop :
      (fuel : ℕ) (tk : Toker) (sc : Scan)
      → ((tk' : Toker) (sc' : Scan)
          → Before text total tk' sc'
          → 2 * left tk' + rank tk'.state < fuel
          → Reads text total (read_loop fuel tk' sc'))
      → (n : ℕ) (o : Outcome Step) → round tk sc ≡ o
      → Post text total n o
      → n ≤ fuel
      → Reads text total (read_loop (suc fuel) tk sc)
  unfolding read_loop
  loop fuel tk sc ih n o e (goes {tk = tk'} {sc = sc'} b m) h =
      rw (e, read_loop) (ih tk' sc' b (omega arith))
  loop fuel tk sc ih n o e (delivers d) h = rw (e, read_loop) (reads d)
  loop fuel tk sc ih n o e fails h = rw (e, read_loop) refuses

  read_loop-Reads :
      (fuel : ℕ) (tk : Toker) (sc : Scan)
      → Before text total tk sc
      → 2 * left tk + rank tk.state < fuel
      → Reads text total (read_loop fuel tk sc)
  read_loop-Reads zero tk sc b h = absurd (omega arith)
  read_loop-Reads (suc fuel) tk sc b h =
      loop fuel tk sc (read_loop-Reads fuel) _ _ refl (round-Post tk sc b) (omega arith)

-- Where readToken may be called: in the states that it accepts.
pub record IsReady (tk : Toker) : Type 0 where
  pub accepted : may_read tk.state ≡ true
  pub buffered : length tk.putback ≤ 2

Before-fresh :
    (st : State) (tk : Toker)
    → tk.state ≡ st
    → may_read st ≡ true
    → length tk.putback ≤ 2
    → Clear (pending tk)
    → Before (pending tk) (tk.current_line + count b'\n' (pending tk)) tk fresh
Before-fresh st_none tk s r f c = record {
  at_spot = record { suffix = here; clear = c; lines = refl };
  fits = rw s f;
  spent = rw s (omega (arith, length-append tk.putback tk.src));
  locals = rw s tt;
}
Before-fresh st_interp_none tk s r f c = record {
  at_spot = record { suffix = here; clear = c; lines = refl };
  fits = rw s f;
  spent = rw s (omega (arith, length-append tk.putback tk.src));
  locals = rw s tt;
}
Before-fresh st_istr tk s r f c = record {
  at_spot = record { suffix = here; clear = c; lines = refl };
  fits = rw s f;
  spent = rw s (omega (arith, length-append tk.putback tk.src));
  locals = rw s (inl refl);
}
Before-fresh _ tk s r f c = cc

rank-ready : (st : State) → may_read st ≡ true → rank st ≡ 0
rank-ready st_none e = refl
rank-ready _ e = ground arith

-- From a state that readToken accepts, with at most two characters in the put-back buffer, over a
-- text with no `=` or `!` right before a colon, a call returns a token or throws ParseError: no
-- assertion fails, no variable is read unwritten, no state is unknown and the rounds suffice. With a
-- token come a state that is accepted again, at most two characters in the put-back buffer, a text
-- left that is the end of the text before, fewer characters left unless the token is the end, which
-- comes only where no text is left, and a line count that has moved by the newlines read, which is
-- the token's line too.
pub read_token-Reads :
    (tk : Toker)
    → IsReady tk
    → Clear (pending tk)
    → Reads (pending tk) (tk.current_line + count b'\n' (pending tk)) (read_token tk)
unfolding read_token
read_token-Reads tk r c = rw (r.accepted) (
    read_loop-Reads _ _ fresh
      (Before-fresh tk.state (record tk { current_start_col = tk.last_loc.end_col + 1 }) refl
        r.accepted r.buffered c)
      (omega (arith, rank-ready tk.state r.accepted)))
