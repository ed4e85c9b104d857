-- ===== src/Grammar.antt =====
-- parser/Parser.cc: the expressions of the language. A run of the parser takes the tokens that the
-- toker still delivers and the rest of the parser's state. Annotations, which run compiled code, are
-- taken to have been replaced by what they put into the stream; an interpolated string stands in the
-- list as the toker delivers it when it is resumed where the parser resumes it.
pub mod Kinds
pub mod Interface
pub mod Operators
pub mod Members
pub mod Formats
pub mod Rounds
pub mod Descent
pub mod Runs
pub mod Keeps
pub mod Reading
pub mod Parts
pub mod Consumed
pub mod Trees
pub mod Steps
pub mod RoundTrip
pub mod Losses
pub mod Ends
use crack.Location.{no_location, Location}
use crack.Prelude.{
  ℕ, suc, Bool, true, false, if◌then◌else◌, Option, some, none, List, [], ◌∷◌, ◌++◌, Bytes, codes,
  Outcome, ok, parse_error, fault, Fault,
}
use crack.Token.{Token, TokenType, ◌is◌}
use Interface.{Language, Acted, done, refused}

-- What the toker gives at the end of its input, as often as it is asked.
abbrev pub end_token : Token
end_token = record { type = TokenType.end; text = []; loc = no_location }

abbrev pub Parse : Type 0 → Type 0 → Type 0
Parse S A = List Token × S → Outcome (A × (List Token × S))

module _ {S A : Type 0} where
  abbrev pub pure : A → Parse S A
  pure a st = ok (a, st)

  abbrev pub fail : Fault → Parse S A
  fail e st = fault e

  unfoldable pub acted : List Token → Acted S A → Outcome (A × (List Token × S))
  acted ts (done a s) = ok (a, (ts, s))
  acted ts (refused l msg) = parse_error l msg

  abbrev pub act : (S → Acted S A) → Parse S A
  act f (ts, s) = acted ts (f s)

  -- Parser::error
  abbrev pub error : Token → Bytes → Parse S A
  error t msg st = parse_error t.loc msg

  abbrev pub unexpected : Token → Bytes → Parse S A
  unexpected t msg =
      error t (codes "token " ++ (t.text ++ (codes " was not expected at this time, " ++ msg)))

  unfoldable pub or_fail : Option A → Parse S A → Parse S A
  or_fail (some a) other st = ok (a, st)
  or_fail none other st = other st

abbrev pub bind : {A B : Type 0} → Outcome A → (A → Outcome B) → Outcome B
bind (ok a) f = f a
bind (parse_error l msg) f = parse_error l msg
bind (fault e) f = fault e

infixl 5 ◌>>=◌ ◌>>◌
abbrev pub ◌>>=◌ : {S A B : Type 0} → Parse S A → (A → Parse S B) → Parse S B
◌>>=◌ m f st = bind (m st) λ (a, st'). f a st'

abbrev pub ◌>>◌ : {S A B : Type 0} → Parse S A → Parse S B → Parse S B
m >> k = m >>= λ _. k

abbrev pub modify : {S : Type 0} → (S → S) → Parse S (Unit {0})
modify f (ts, s) = ok (tt, (ts, f s))

abbrev pub gets : {S A : Type 0} → (S → A) → Parse S A
gets f (ts, s) = ok (f s, (ts, s))

-- Toker::putBack
abbrev pub put_back : {S : Type 0} → Token → Parse S (Unit {0})
put_back t (ts, s) = ok (tt, (t ∷ ts, s))

unfoldable pub require : {S : Type 0} → Bool → Parse S (Unit {0}) → Parse S (Unit {0})
require b other st = if b then ok (tt, st) else other st

abbrev pub first_loc : List Token → Location
first_loc [] = no_location
first_loc (t ∷ ts) = t.loc

module _ (L : Language) where
  -- The location is taken of the first token, and again of the one behind an error context.
  abbrev pub place : Bool → Token → L.Context → L.Context
  place again t s = if again then L.set_location t.loc s else s

  -- The loops of getToken over doc tokens and the ends of error contexts.
  unfoldable pub skip : Bool → List Token → L.Context → Token × (List Token × L.Context)
  skip again [] s = (end_token, ([], place again end_token s))
  skip again (t ∷ ts) s =
      let past_doc = skip again ts (L.add_doc t.text s) in
      let past_end = skip true ts (L.pop_error_context (place again t s)) in
      if t.type is TokenType.doc
      then past_doc
      else if t.type is TokenType.pop_err_ctx
      then past_end
      else (t, (ts, place again t s))

  unfoldable pub get_token : Parse L.Context Token
  unfolding skip
  get_token (ts, s) = ok (skip false ts (L.set_location (first_loc ts) s))
