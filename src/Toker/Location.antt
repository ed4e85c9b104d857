-- ===== src/Toker/Location.antt =====
-- What getLocation returns, field by field.
use crack.Location.{Location}
use crack.Prelude.{ℕ, Bytes, bytes_eq_iff, ◌≡◌, refl, arith, ok, parse_error}
use crack.Token.{TokenType}
use crack.Toker.Scan.{token, emit, abort}
use crack.Toker.State.{Toker, get_location}

pub end_col_of : Toker → ℕ
unfolding get_location
end_col_of tk = (get_location tk).1.end_col

abbrev pub location : Toker → Location
location tk = record {
  name = tk.current_name;
  line_number = tk.current_line;
  start_col = tk.current_start_col;
  end_col = end_col_of tk;
}

-- The last location is taken again only where it says the same.
pub get_location-location :
    (tk : Toker) → get_location tk ≡ (record tk { last_loc = location tk }, location tk)
unfolding get_location end_col_of
get_location-location tk = ground (arith, bytes_eq_iff tk.current_name tk.last_loc.name)

pub emit-location :
    (tk : Toker) (type : TokenType) (text : Bytes)
    → emit tk type text
      ≡ ok (
          token
            (record tk { last_loc = location tk })
            (record { type = type; text = text; loc = location tk }))
unfolding emit
emit-location tk type text = rw get_location-location refl

pub abort-location {ℓ} :
    {A : Type ℓ} (tk : Toker) (msg : Bytes) → abort {A = A} tk msg ≡ parse_error (location tk) msg
unfolding abort
abort-location tk msg = rw get_location-location refl
