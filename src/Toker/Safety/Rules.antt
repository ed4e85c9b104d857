-- ===== src/Toker/Safety/Rules.antt =====
-- Rules for the ways in which a round ends.
use mathlib.Core.Path.{subst}
use crack.Prelude.{
  sym, ap, ℕ, ◌+◌, ◌-◌, ◌*◌, ◌≤◌, ◌<◌, ◌≡◌, inr, refl, ◌==◌, Bool, true, false, if◌then◌else◌, ◌∷◌,
  ◌++◌, Option, some, none, Bytes, length, Outcome, ok, arith, ◌>>=◌,
}
use crack.Token.{TokenType, Token, ◌is◌, end}
use crack.Toker.Location.{emit-location, abort-location}
use crack.Toker.Read.{may_read}
use crack.Toker.Safety.{
  Written, Known, Got, Post, pending, Delivered, Spot, Locals, goes, delivers, fails, room, used,
  rank,
}
use crack.Toker.Scan.{need, Scan, emit, abort, Step, more}
use crack.Toker.State.{Toker, State, left, unget_char, st_none}

-- The fields that the rules are about.
abbrev pub core : Toker → Bytes × Bytes × ℕ
core tk = (tk.putback, tk.src, tk.current_line)

-- The tokenizer behind unget_char where the buffer has room.
abbrev pub ungot : Toker → ℕ → Toker
ungot tk c = record tk {
  putback = c ∷ tk.putback;
  current_line = if c == b'\n' then tk.current_line - 1 else tk.current_line;
  current_end_col = if c == b'\n' then tk.save_end_col else tk.current_end_col - 1;
}

pub unget_char-ok : (tk : Toker) (c : ℕ) → length tk.putback < 2 → unget_char tk c ≡ ok (ungot tk c)
unfolding unget_char
unget_char-ok tk c h = ground arith

pub room-le : (st : State) → room st ≤ 2
room-le st_none = omega arith
room-le _ = omega arith

rank-lt : (st : State) → rank st < 2
rank-lt st_none = omega arith
rank-lt _ = omega arith

fits_of : {k k' : Bytes × Bytes × ℕ} → k' ≡ k → length k'.0 ≡ length k.0
fits_of e = ap (λ (k : Bytes × Bytes × ℕ). length k.0) e

pub left_of :
    {k k' : Bytes × Bytes × ℕ} → k' ≡ k → length k'.0 + length k'.1 ≡ length k.0 + length k.1
left_of e = ap (λ (k : Bytes × Bytes × ℕ). length k.0 + length k.1) e

-- What the next state may be where the character was kept, and where it was put back.
abbrev pub Goes : State → State → Type 0
Goes st st' = (room st - 1 ≤ room st') × (used st' ≤ used st + 1) × (rank st' < 2)

abbrev pub GoesBack : State → State → Type 0
GoesBack st st' = (room st - 1 < room st') × (used st' ≤ used st) × (rank st' < rank st)

module _ {text : Bytes} {total : ℕ} where
  pub pick :
      {n : ℕ} (b : Bool) {x y : Outcome Step}
      → (b ≡ true → Post text total n x)
      → (b ≡ false → Post text total n y)
      → Post text total n (if b then x else y)
  pick true h k = h refl
  pick false h k = k refl

  pub abort-Post : {n : ℕ} (tk : Toker) (msg : Bytes) → Post text total n (abort tk msg)
  abort-Post tk msg = rw abort-location fails

  -- A read of a variable that is known to be written.
  pub need-Post :
      {n : ℕ} (o : Option TokenType) (k : TokenType → Outcome Step)
      → Known o
      → ((t : TokenType) → (t is end) ≡ false → Post text total n (k t))
      → Post text total n (need o >>= k)
  need-Post none k h p = absurd h
  need-Post (some t) k h p = p t h

  pub Written-Post :
      {n : ℕ} {A : Type 0} (o : Option A) (k : A → Outcome Step)
      → Written o
      → ((a : A) → Post text total n (k a))
      → Post text total n (need o >>= k)
  Written-Post none k w p = absurd w
  Written-Post (some a) k w p = p a

  module _ {st : State} {tk : Toker} {sc : Scan} {c : ℕ} (g : Got text total st tk sc c) where
    pub Spot-back : Spot text total (pending (ungot tk c)) (ungot tk c).current_line
    Spot-back = record {
      suffix = g.whole;
      clear = g.clear;
      lines = ground (arith, g.at_spot.lines);
    }

    -- A token whose last character was kept.
    token_here :
        (tk' : Toker) (tok : Token)
        → core tk' ≡ core tk
        → may_read tk'.state ≡ true
        → (tok.type is end) ≡ false
        → tok.loc.line_number ≡ tk'.current_line
        → Delivered text total tk' tok
    token_here tk' tok same r e l = record {
      at_spot = subst (λ k. Spot text total (k.0 ++ k.1) k.2) (sym same) g.at_spot;
      ready = r;
      fits = omega (arith, fits_of same, g.fits, room-le st);
      progress = inr (e, omega (arith, left_of same, g.spent));
      located = l;
    }

    -- A token whose last character was put back.
    pub token_back :
        (tk' : Toker) (tok : Token)
        → core tk' ≡ core (ungot tk c)
        → may_read tk'.state ≡ true
        → (tok.type is end) ≡ false
        → tok.loc.line_number ≡ tk'.current_line
        → left tk + 1 < length text
        → Delivered text total tk' tok
    token_back tk' tok same r e l u = record {
      at_spot = subst (λ k. Spot text total (k.0 ++ k.1) k.2) (sym same) Spot-back;
      ready = r;
      fits = omega (arith, fits_of same, g.fits, room-le st);
      progress = inr (e, omega (arith, left_of same, g.spent));
      located = l;
    }

    pub emit_here :
        {n : ℕ} (tk' : Toker) (type : TokenType) (txt : Bytes)
        → core tk' ≡ core tk
        → may_read tk'.state ≡ true
        → (type is end) ≡ false
        → Post text total n (emit tk' type txt)
    emit_here tk' type txt same r e = rw emit-location (delivers (token_here _ _ same r e refl))

    pub emit_back :
        {n : ℕ} (tk' : Toker) (type : TokenType) (txt : Bytes)
        → core tk' ≡ core (ungot tk c)
        → may_read tk'.state ≡ true
        → (type is end) ≡ false
        → left tk + 1 < length text
        → Post text total n (emit tk' type txt)
    emit_back tk' type txt same r e u = rw emit-location (delivers (token_back _ _ same r e refl u))

    -- Putting the character back goes well.
    pub back :
        {n : ℕ} (tk' : Toker) (k : Toker → Outcome Step)
        → core tk' ≡ core tk
        → Post text total n (k (ungot tk' c))
        → Post text total n (unget_char tk' c >>= k)
    back tk' k same p = rw (unget_char-ok tk' c (omega (arith, fits_of same, g.fits, room-le st))) p

    -- A round behind which the loop goes on, the character kept.
    pub go_on :
        {n : ℕ} (tk' : Toker) (sc' : Scan)
        → core tk' ≡ core tk
        → Goes st tk'.state
        → Locals text total tk'.state tk' sc'
        → 2 * left tk + 2 ≤ n
        → Post text total n (ok (more tk' sc'))
    go_on tk' sc' same s l h =
        goes
          (record {
            at_spot = subst (λ k. Spot text total (k.0 ++ k.1) k.2) (sym same) g.at_spot;
            fits = omega (arith, fits_of same, g.fits);
            spent = omega (arith, left_of same, g.spent);
            locals = l;
          })
          (omega (arith, left_of same))

    -- The same, the character put back.
    pub go_back :
        {n : ℕ} (tk' : Toker) (sc' : Scan)
        → core tk' ≡ core (ungot tk c)
        → GoesBack st tk'.state
        → Locals text total tk'.state tk' sc'
        → 2 * left tk + 2 + rank st ≤ n
        → Post text total n (ok (more tk' sc'))
    go_back tk' sc' same s l h =
        goes
          (record {
            at_spot = subst (λ k. Spot text total (k.0 ++ k.1) k.2) (sym same) Spot-back;
            fits = omega (arith, fits_of same, g.fits);
            spent = omega (arith, left_of same, g.spent);
            locals = l;
          })
          (omega (arith, left_of same))

    -- The state stays as it is.
    pub stay :
        {n : ℕ} (tk' : Toker) (sc' : Scan)
        → core tk' ≡ core tk
        → tk'.state ≡ st
        → Locals text total st tk' sc'
        → 2 * left tk + 2 ≤ n
        → Post text total n (ok (more tk' sc'))
    stay tk' sc' same s l h =
        go_on tk' sc' same (rw s (omega (arith, rank-lt st)))
          (subst (λ z. Locals text total z tk' sc') (sym s) l) h
