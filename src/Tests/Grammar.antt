-- ===== src/Tests/Grammar.antt =====
-- The theorems on the parser of expressions at concrete inputs.
use crack.Grammar.Descent.{expression}
use crack.Grammar.Ends.{parse_expression-Ends}
use crack.Grammar.Runs.{size, weight, Ends}
use crack.Grammar.Trees.{Tree, name, sign, link, trees}
use crack.Location.{no_location}
use crack.Prelude.{[], ◌∷◌, List, Bytes, codes, arith}
use crack.Token.{Token, TokenType}

abbrev token : TokenType → Bytes → Token
token type text = record { type = type; text = text; loc = no_location }

abbrev var_a : Token
var_a = token TokenType.ident (codes "a")

abbrev var_b : Token
var_b = token TokenType.ident (codes "b")

abbrev semicolon : Token
semicolon = token TokenType.semi (codes ";")

abbrev plus_sign : Token
plus_sign = token TokenType.plus (codes "+")

abbrev times_sign : Token
times_sign = token TokenType.asterisk (codes "*")

abbrev minus_sign : Token
minus_sign = token TokenType.minus (codes "-")

abbrev bang_sign : Token
bang_sign = token TokenType.bang (codes "!")

abbrev is_word : Token
is_word = token TokenType.is_kw (codes "is")

-- (a + b) * -a
abbrev product : Tree
product =
    link times_sign 9 (link plus_sign 8 (name var_a) (name var_b)) (sign minus_sign (name var_a))

abbrev sum_tokens : List Token
sum_tokens = var_a ∷ plus_sign ∷ var_b ∷ semicolon ∷ []

parse_expression-Ends_example : Ends (size sum_tokens) (expression trees 200 0 (sum_tokens, tt))
unfolding size weight
parse_expression-Ends_example = parse_expression-Ends trees 200 0 sum_tokens tt (omega arith)
