-- ===== src/Toker/Scan.antt =====
-- The local variables of Toker::readToken, and what one round of its loop gives.
use crack.Prelude.{
  ℕ, [], ◌∷◌, ◌++◌, Option, some, none, Bytes, Outcome, ok, parse_error, fault, uninitialised,
}
use crack.Token.{TokenType, Token}
use crack.Toker.State.{Toker, State, get_location}

-- `none` is a variable that is not written yet. Of the array symchars the characters are kept that were
-- written to it.
pub record Scan : Type 0 where
  -- symchars up to sci
  pub sym : Bytes
  -- symchars[0] where the source writes it without moving sci
  pub comment_char : Option ℕ
  pub t1 : Option TokenType
  pub t2 : Option TokenType
  pub t3 : Option TokenType
  pub terminator : Option ℕ
  pub code_char : Option ℕ
  pub code_len : Option ℕ
  pub buf : Bytes

abbrev pub fresh : Scan
fresh = record {
  sym = [];
  comment_char = none;
  t1 = none;
  t2 = none;
  t3 = none;
  terminator = none;
  code_char = none;
  code_len = none;
  buf = [];
}

pub data Step : Type 0 where
  -- the loop goes on
  more : Toker → Scan → Step
  -- readToken returns
  token : Toker → Token → Step

-- `return Token(type, text, getLocation())`
unfoldable pub emit : Toker → TokenType → Bytes → Outcome Step
emit tk type text =
    let (tk', loc) = get_location tk in
    ok (token tk' (record { type = type; text = text; loc = loc }))

-- `ParseError::abort(Token(…, getLocation()), msg)`
unfoldable pub abort {ℓ} : {A : Type ℓ} → Toker → Bytes → Outcome A
abort tk msg = parse_error (get_location tk).1 msg

abbrev pub enter : Toker → State → Toker
enter tk st = record tk { state = st }

-- `state = st;` and the next round
abbrev pub go : Toker → State → Scan → Outcome Step
go tk st sc = ok (more (enter tk st) sc)

-- `buf << c`
abbrev pub put : Scan → ℕ → Scan
put sc c = record sc { buf = sc.buf ++ c ∷ [] }

-- `symchars[sci++] = c`
abbrev pub put_sym : Scan → ℕ → Scan
put_sym sc c = record sc { sym = sc.sym ++ c ∷ [] }

-- A read of a variable.
abbrev pub need {ℓ} : {A : Type ℓ} → Option A → Outcome A
need none = fault uninitialised
need (some a) = ok a
