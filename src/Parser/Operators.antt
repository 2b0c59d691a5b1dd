-- ===== src/Parser/Operators.antt =====
-- parser.C: `OpPriority`, `IsOperator` and the two stacks of `ParseExpression`. The push back of the
-- word behind the expression is left out.
use emufxtool.Base.{ℕ, Bool, true, false, Option, none, some, List, [], ◌∷◌, ltb, if◌then◌else◌}
use emufxtool.Expression.Trees.{
  ExprOp, op_plus, op_minus, op_times, op_divide, op_mod, op_lshift, op_rshift, op_and, op_or,
  op_xor, op_land, op_lor, op_gt, op_ge, op_lt, op_le, op_eq, op_ne,
}

-- The tokens that may follow an element of an expression; all that have no case anywhere in the
-- code are `t_other`.
pub data OpToken : Type 0 where
  t_power t_times t_mod t_divide t_plus t_minus t_lshift t_rshift : OpToken
  t_bitwise_and t_bitwise_or t_xor t_and t_or : OpToken
  t_greater t_greater_equal t_less t_less_equal t_equal t_not_equal : OpToken
  t_not t_unary_minus t_bitwise_not t_other : OpToken

unfoldable pub op_priority : OpToken → ℕ
op_priority t_power = 100
op_priority t_times = 90
op_priority t_mod = 90
op_priority t_divide = 90
op_priority t_plus = 80
op_priority t_minus = 80
op_priority t_lshift = 79
op_priority t_rshift = 79
op_priority t_bitwise_and = 75
op_priority t_bitwise_or = 71
op_priority t_greater = 70
op_priority t_greater_equal = 70
op_priority t_less = 70
op_priority t_less_equal = 70
op_priority t_equal = 70
op_priority t_not_equal = 70
op_priority t_and = 60
op_priority t_or = 50
op_priority t_xor = 0
op_priority t_not = 0
op_priority t_unary_minus = 0
op_priority t_bitwise_not = 0
op_priority t_other = 0

-- `switch (StackToken)`; `none` where it leaves `op` without a value.
unfoldable pub expr_op_of : OpToken → Option ExprOp
expr_op_of t_plus = some op_plus
expr_op_of t_minus = some op_minus
expr_op_of t_lshift = some op_lshift
expr_op_of t_rshift = some op_rshift
expr_op_of t_bitwise_and = some op_and
expr_op_of t_bitwise_or = some op_or
expr_op_of t_and = some op_land
expr_op_of t_or = some op_lor
expr_op_of t_greater = some op_gt
expr_op_of t_greater_equal = some op_ge
expr_op_of t_less = some op_lt
expr_op_of t_less_equal = some op_le
expr_op_of t_equal = some op_eq
expr_op_of t_not_equal = some op_ne
expr_op_of t_times = some op_times
expr_op_of t_divide = some op_divide
expr_op_of t_mod = some op_mod
expr_op_of t_xor = some op_xor
expr_op_of t_power = none
expr_op_of t_not = none
expr_op_of t_unary_minus = none
expr_op_of t_bitwise_not = none
expr_op_of t_other = none

-- `emuFirstOper` to `emuLastOper` of the enumeration, in which `tPower` comes later.
unfoldable pub is_operator : OpToken → Bool
is_operator t_power = false
is_operator t_other = false
is_operator _ = true

infixl 5 ◌>>=◌
abbrev ◌>>=◌ : {A B : Type 0} → Option A → (A → Option B) → Option B
none >>= f = none
some a >>= f = f a

-- The stacks of elements and of operators, the top first.
abbrev pub Stacks : Type 0 → Type 0
Stacks E = List E × List OpToken

abbrev pub top {ℓ} : {E : Type ℓ} → List E → Option E
top [] = none
top (e ∷ es) = some e

-- `join` makes the expression of an operator and two operands.
module _ {E : Type 0} (join : ExprOp → E → E → E) where
  -- `none` where the code takes the top of an empty stack or uses `op` without a value.
  unfoldable pub combine : OpToken → List E → Option (List E)
  combine s (e1 ∷ e2 ∷ es) = do op ← expr_op_of s; some (join op e2 e1 ∷ es)
  combine s _ = none

  -- The inner loop. The test before it asks what the first round of the loop asks again.
  unfoldable pub settle : OpToken → List E → List OpToken → Option (Stacks E)
  settle token es [] = some (es, [])
  settle token es (s ∷ ops) =
      if ltb (op_priority s) (op_priority token)
      then some (es, s ∷ ops)
      else (do fs ← combine s es; settle token fs ops)
