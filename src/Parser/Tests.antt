-- ===== src/Parser/Tests.antt =====
-- Runs of the expression parser.
use emufxtool.Base.{◌≡◌, refl, some, none, [], ◌∷◌}
use emufxtool.Expression.Trees.{
  Expression, number, binary, op_plus, op_times, op_minus, op_or, op_xor, type_int,
}
use emufxtool.Parser.Operators.{
  t_plus, t_times, t_minus, t_bitwise_or, t_xor, t_not, t_other, settle, is_operator, op_priority,
  combine, expr_op_of,
}
use emufxtool.Parser.Order.{parse_loop}

abbrev one : Expression
one = number 0 1 type_int

abbrev two : Expression
two = number 0 2 type_int

abbrev three : Expression
three = number 0 3 type_int

parse_sum :
    parse_loop binary [] []
      ((one, t_plus) ∷ (two, t_times) ∷ (three, t_minus) ∷ (one, t_other) ∷ [])
    ≡ some (binary op_minus (binary op_plus one (binary op_times two three)) one)
unfolding parse_loop settle is_operator op_priority combine expr_op_of
parse_sum = refl

-- An exclusive or binds less than an or on its right.
parse_xor :
    parse_loop binary [] []
      ((one, t_bitwise_or) ∷ (two, t_xor) ∷ (three, t_bitwise_or) ∷ (one, t_other) ∷ [])
    ≡ some (binary op_xor (binary op_or one two) (binary op_or three one))
unfolding parse_loop settle is_operator op_priority combine expr_op_of
parse_xor = refl

-- `!` between two operands has no case.
parse_not : parse_loop binary [] [] ((one, t_not) ∷ (two, t_other) ∷ []) ≡ none
unfolding parse_loop settle is_operator op_priority combine expr_op_of
parse_not = refl
