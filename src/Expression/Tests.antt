-- ===== src/Expression/Tests.antt =====
-- Runs of expressions and numbers.
use emufxtool.Base.{
  ℕ, ◌<◌, ◌+◌, ◌%◌, ◌^◌, ◌≡◌, refl, true, Option, none, some, arith, if◌then◌else◌,
}
use emufxtool.Base.Text.{Text, codes}
use emufxtool.Expression.Numbers.{isnum, char2base, in_base, scanned, from_char}
use emufxtool.Expression.Arithmetic.{exact, eval-exact}
use emufxtool.Expression.Trees.{
  op_minus, op_times, apply, needs_b, Expression, number, unary, binary, op_plus, op_neg, type_int,
  apply, needs_b, eval,
}
use emufxtool.Expression.NumberLaws.{
  print_number, char2base-print_number, reads_as_fraction, from_char-untyped,
}

print_number_255 : print_number 16 300 255 ≡ codes "ff"
print_number_255 = refl

char2base-print_number_example :
    (isnum (print_number 16 300 255) 16 ≡ true) × (char2base (print_number 16 300 255) 16 ≡ 255)
char2base-print_number_example =
    char2base-print_number 16 300 255 (omega arith) (omega arith) (omega arith) (omega arith)

-- A scanner that finds no number.
abbrev finds_none : Text → Option ℕ
finds_none s = none

from_char-untyped_example : from_char finds_none finds_none (codes "0x10") 0 ≡ (
    if reads_as_fraction (codes "0x10")
    then scanned (finds_none (codes "0x10")) 0x23
    else in_base (codes "0x10") 10 0x64)
from_char-untyped_example = from_char-untyped finds_none finds_none (codes "0x10")

-- `-(2 + 3)`
abbrev negated : Expression
negated = unary op_neg (binary op_plus (number 0 2 type_int) (number 0 3 type_int))

eval-negated : eval 0 negated ≡ some 0xfffffffb
unfolding eval apply needs_b
eval-negated = refl

-- `3 - 5 * 2`
abbrev below_zero : Expression
below_zero =
    binary op_minus (number 0 3 type_int)
      (binary op_times (number 0 5 type_int) (number 0 2 type_int))

eval-below_zero : eval 0 below_zero ≡ some 0xfffffff9
unfolding eval apply needs_b
eval-below_zero = refl

eval-exact_example :
    (v : ℕ) × (eval 0 below_zero ≡ some v)
    × (v < 2 ^ 32)
    × ((v + (exact below_zero).1) % 2 ^ 32 ≡ (exact below_zero).0 % 2 ^ 32)
eval-exact_example = eval-exact 0 below_zero (omega arith, (omega arith, omega arith))
