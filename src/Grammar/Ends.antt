-- ===== src/Grammar/Ends.antt =====
-- The runs of parseExpression (parser/Parser.cc) with enough fuel.
pub mod Given
pub mod Expression
pub mod Secondary
pub mod Sugar
pub mod Primary
pub mod Specs
pub mod Sequences
use Given.{Below}
use crack.Grammar.Descent.{expression}
use crack.Grammar.Interface.{Language}
use crack.Grammar.Runs.{size, Ends}
use crack.Prelude.{ℕ, zero, suc, ◌+◌, ◌*◌, ◌<◌, List, arith, refl}
use crack.Token.{Token}

-- Every amount of fuel.
all-Below : (L : Language) (f : ℕ) → Below L f
all-Below L zero = record {
  expression-Ends = λ n p ts s h k. absurd (omega arith);
  begin-Ends = λ n kind p t ts s e h k. absurd (omega arith);
  behind_primary-Ends = λ n p o ident ts s h k. absurd (omega arith);
  secondary-Ends = λ n p first ident v ts s h k. absurd (omega arith);
  follow-Ends = λ n kind p first ident v t ts s e h k. absurd (omega arith);
  follow_bracket-Ends = λ n T p ident v t ts s h k. absurd (omega arith);
  follow_type-Ends = λ n called T p ident t ts s h k. absurd (omega arith);
  follow_bin-Ends = λ n ends level p ident v t ts s h k. absurd (omega arith);
  follow_quest-Ends = λ n safe p ident v t t₂ ts s h k. absurd (omega arith);
  follow_ternary-Ends = λ n ends p ident v t ts s h k. absurd (omega arith);
  follow_bang-Ends = λ n sugar p ident v t t₂ ts s h k. absurd (omega arith);
  follow_not_is-Ends = λ n ends level p ident v t t₂ ts s h k. absurd (omega arith);
  parse_define-Ends = λ n ident ts s h k. absurd (omega arith);
  index-Ends = λ n v t ts s h k. absurd (omega arith);
  index_value-Ends = λ n assigned args v t t₂ ts s h k. absurd (omega arith);
  primary-Ends = λ n t ts s e h k. absurd (omega arith);
  start_primary-Ends = λ n is_typeof t ts s h k. absurd (omega arith);
  name_primary-Ends = λ n def t ts s h k. absurd (omega arith);
  accessor_primary-Ends = λ n o t ts s h k. absurd (omega arith);
  primary_loop-Ends = λ n v T ident ts s h k. absurd (omega arith);
  extend-Ends = λ n kind v T ident t ts s e h k. absurd (omega arith);
  extend_bracket-Ends = λ n generic v T t ts s h k. absurd (omega arith);
  extend_quest-Ends = λ n safe v T ident t t₂ ts s h k. absurd (omega arith);
  post_dot-Ends = λ n v T safe ts s h k. absurd (omega arith);
  dotted-Ends = λ n kind guard v T t ts s h k. absurd (omega arith);
  method_args-Ends = λ n stop ts s h k. absurd (omega arith);
  args_from-Ends = λ n ends stop t ts s h k. absurd (omega arith);
  specializer-Ends = λ n t T ts s h k. absurd (omega arith);
  sub_types-Ends = λ n ts s h k. absurd (omega arith);
  more_types-Ends = λ n ends T t ts s h k. absurd (omega arith);
  type_spec-Ends = λ n ts s h k. absurd (omega arith);
  any_def-Ends = λ n ts s h k. absurd (omega arith);
  start_def-Ends = λ n is_typeof t ts s e h k. absurd (omega arith);
  def_loop-Ends = λ n def T ts s h k. absurd (omega arith);
  def_bracket-Ends = λ n special def T t ts s h k. absurd (omega arith);
  def_member-Ends = λ n def T ts s h k. absurd (omega arith);
  def_name-Ends = λ n named def T t ts s h k. absurd (omega arith);
  parse_typeof-Ends = λ n ts s h k. absurd (omega arith);
  const_sequence-Ends = λ n T ts s h k. absurd (omega arith);
  elements-Ends = λ n ends t ts s h k. absurd (omega arith);
  parse_istring-Ends = λ n v ts s h k. absurd (omega arith);
  format_parts-Ends = λ n reg ts s h k. absurd (omega arith);
  format_part-Ends = λ n kind reg t ts s e h k. absurd (omega arith);
}
all-Below L (suc f) =
    let below = all-Below L f in
    record {
      expression-Ends = Expression.expression-Ends L f below;
      begin-Ends = Expression.begin-Ends L f below;
      behind_primary-Ends = Expression.behind_primary-Ends L f below;
      secondary-Ends = Secondary.secondary-Ends L f below;
      follow-Ends = Secondary.follow-Ends L f below;
      follow_bracket-Ends = Secondary.follow_bracket-Ends L f below;
      follow_type-Ends = Secondary.follow_type-Ends L f below;
      follow_bin-Ends = Secondary.follow_bin-Ends L f below;
      follow_quest-Ends = Secondary.follow_quest-Ends L f below;
      follow_ternary-Ends = Sugar.follow_ternary-Ends L f below;
      follow_bang-Ends = Sugar.follow_bang-Ends L f below;
      follow_not_is-Ends = Sugar.follow_not_is-Ends L f below;
      parse_define-Ends = Expression.parse_define-Ends L f below;
      index-Ends = Sugar.index-Ends L f below;
      index_value-Ends = Sugar.index_value-Ends L f below;
      primary-Ends = Primary.primary-Ends L f below;
      start_primary-Ends = Primary.start_primary-Ends L f below;
      name_primary-Ends = Primary.name_primary-Ends L f below;
      accessor_primary-Ends = Primary.accessor_primary-Ends L f below;
      primary_loop-Ends = Primary.primary_loop-Ends L f below;
      extend-Ends = Primary.extend-Ends L f below;
      extend_bracket-Ends = Primary.extend_bracket-Ends L f below;
      extend_quest-Ends = Primary.extend_quest-Ends L f below;
      post_dot-Ends = Primary.post_dot-Ends L f below;
      dotted-Ends = Primary.dotted-Ends L f below;
      method_args-Ends = Sequences.method_args-Ends L f below;
      args_from-Ends = Sequences.args_from-Ends L f below;
      specializer-Ends = Specs.specializer-Ends L f below;
      sub_types-Ends = Specs.sub_types-Ends L f below;
      more_types-Ends = Specs.more_types-Ends L f below;
      type_spec-Ends = Specs.type_spec-Ends L f below;
      any_def-Ends = Specs.any_def-Ends L f below;
      start_def-Ends = Specs.start_def-Ends L f below;
      def_loop-Ends = Specs.def_loop-Ends L f below;
      def_bracket-Ends = Specs.def_bracket-Ends L f below;
      def_member-Ends = Specs.def_member-Ends L f below;
      def_name-Ends = Specs.def_name-Ends L f below;
      parse_typeof-Ends = Specs.parse_typeof-Ends L f below;
      const_sequence-Ends = Sequences.const_sequence-Ends L f below;
      elements-Ends = Sequences.elements-Ends L f below;
      parse_istring-Ends = Sequences.parse_istring-Ends L f below;
      format_parts-Ends = Sequences.format_parts-Ends L f below;
      format_part-Ends = Sequences.format_part-Ends L f below;
    }

-- Every expression parse ends. Whatever tokens are to come, at whatever precedence and whatever the
-- context and the builder answer, fuel above thirty times the number of tokens (the end token not
-- counted) and one is enough for parseExpression and all that it calls: it gives an expression and
-- leaves fewer tokens than there were, or raises a ParseError, or ends in a fault, but it never runs
-- out of fuel.
pub parse_expression-Ends :
    (L : Language) (f p : ℕ) (ts : List Token) (s : L.Context)
    → 30 * size ts + 1 < f
    → Ends (size ts) (expression L f p (ts, s))
parse_expression-Ends L f p ts s h =
    (all-Below L f).expression-Ends (size ts) p ts s h (omega arith)
