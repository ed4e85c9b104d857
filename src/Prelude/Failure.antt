-- ===== src/Prelude/Failure.antt =====
-- The result of code that may throw: `parse_error` is the exception that ParseError::abort throws
-- (parser/ParseError.cc), `fault` is what C++ does not define or what an assertion stops.
use crack.Location.{Location}
use crack.Prelude.Text.{Bytes}

pub data Fault : Type 0 where
  -- an assertion of the source fails
  assertion : Fault
  -- `throw logic_error`
  logic_error : Fault
  -- a local variable is read before it is written
  uninitialised : Fault
  -- a null pointer is dereferenced
  null_pointer : Fault
  -- an exception that nothing on the way catches
  uncaught : Fault
  -- the model's loop ran out of rounds
  out_of_fuel : Fault

pub data Outcome {ℓ} (A : Type ℓ) : Type ℓ where
  ok : A → Outcome A
  parse_error : Location → Bytes → Outcome A
  fault : Fault → Outcome A

infixl 5 ◌>>=◌
abbrev pub ◌>>=◌ {ℓ κ} : {A : Type ℓ} {B : Type κ} → Outcome A → (A → Outcome B) → Outcome B
ok a >>= f = f a
parse_error l msg >>= f = parse_error l msg
fault e >>= f = fault e
