-- ===== src/Expression/Trees.antt =====
-- `emuExpression`, `emuNumber` and `emuInitRef` as trees.
use Prim.Native.Nat.{bit_and, bit_or}
use emufxtool.Base.{
  ℕ, ◌+◌, ◌-◌, ◌*◌, ◌/◌, ◌%◌, ◌^◌, Bool, true, false, Option, none, some, ◌==◌, ◌&&◌, ◌||◌, not,
  leb, ltb, if◌then◌else◌,
}
use emufxtool.Words.{u32, add32, sub32, complement, is_set, ◌<<<◌, ◌>>>◌}
use emufxtool.Flags.{v_leaf}
use emufxtool.Symbols.Initializers.{Initializer, get_address, get_initial_value}

-- `expr_op`
pub data ExprOp : Type 0 where
  op_leaf op_plus op_minus op_times op_divide op_mod op_lshift op_rshift : ExprOp
  op_neg op_not op_and op_or op_xor op_land op_lnot op_lor : ExprOp
  op_gt op_ge op_lt op_le op_eq op_ne : ExprOp

-- `n_type`, in its order.
pub data NType : Type 0 where
  type_none type_int type_decimal type_time type_register type_label : NType

abbrev pub rank : NType → ℕ
rank type_none = 0
rank type_int = 1
rank type_decimal = 2
rank type_time = 3
rank type_register = 4
rank type_label = 5

-- A node has no operand, or the operand `A`, or `A` and `B`. The type of a number is a member that
-- no constructor sets. A reference without an index has the index `empty`, which is 0.
pub data Expression : Type 0 where
  empty : (flags : ℕ) → Expression
  number : (flags value : ℕ) (n_type : NType) → Expression
  unary : ExprOp → Expression → Expression
  binary : ExprOp → Expression → Expression → Expression
  init_ref : Initializer → Expression → Expression

-- `EMUOP_FLAG_ADDRESS`
abbrev pub emuop_flag_address : ℕ
emuop_flag_address = 2

abbrev pub truth : Bool → ℕ
truth b = if b then 1 else 0

-- The operators on two words. `none` where C gives no value: a division by 0, and a shift by the
-- width or more.
unfoldable pub apply : ExprOp → ℕ → ℕ → Option ℕ
apply op_plus a b = some (add32 a b)
apply op_minus a b = some (sub32 a b)
apply op_times a b = some (u32 (a * b))
apply op_divide a b = if b == 0 then none else some (a / b)
apply op_mod a b = if b == 0 then none else some (a % b)
apply op_lshift a b = if ltb b 32 then some (a <<< b) else none
apply op_rshift a b = if ltb b 32 then some (a >>> b) else none
apply op_neg a b = some (sub32 0 a)
apply op_not a b = some (complement a)
apply op_lnot a b = some (truth (a == 0))
apply op_land a b = some (truth (is_set a && is_set b))
apply op_lor a b = some (truth (is_set a || is_set b))
apply op_and a b = some (bit_and a b)
apply op_or a b = some (bit_or a b)
apply op_gt a b = some (truth (ltb b a))
apply op_ge a b = some (truth (leb b a))
apply op_lt a b = some (truth (ltb a b))
apply op_le a b = some (truth (leb a b))
apply op_eq a b = some (truth (a == b))
apply op_ne a b = some (truth (not (a == b)))
apply op_leaf a b = some a
apply op_xor a b = some a

-- Is `B` evaluated, when `A` has the value `a`?
unfoldable pub needs_b : ExprOp → ℕ → Bool
needs_b op_neg a = false
needs_b op_not a = false
needs_b op_lnot a = false
needs_b op_leaf a = false
needs_b op_xor a = false
needs_b op_land a = is_set a
needs_b op_lor a = not (is_set a)
needs_b op a = true

abbrev pub on_value : Option ℕ → (ℕ → Option ℕ) → Option ℕ
on_value none f = none
on_value (some v) f = f v

-- `Eval`
unfoldable pub eval : ℕ → Expression → Option ℕ
eval options (empty flags) = some 0
eval options (number flags value n_type) = some value
eval options (unary op a) = on_value (eval options a) (λ x. apply op x 0)
eval options (binary op a b) =
    let second = eval options b in
    on_value (eval options a)
      (λ x. if needs_b op x then on_value second (λ y. apply op x y) else apply op x 0)
eval options (init_ref i index) = on_value (eval 0 index) (λ n. some (
    if is_set (bit_and options emuop_flag_address) then get_address i n else get_initial_value i n))

-- `EvalFlags`
unfoldable pub eval_flags : ℕ → Expression → ℕ
eval_flags or_mask (empty flags) = bit_or flags v_leaf
eval_flags or_mask (number flags value n_type) = bit_or flags v_leaf
eval_flags or_mask (unary op a) = eval_flags or_mask a
eval_flags or_mask (binary op a b) =
    let fa = eval_flags or_mask a in
    let fb = eval_flags or_mask b in
    bit_and (bit_or (bit_and (bit_or fa fb) or_mask) (bit_and (bit_and fa fb) (complement or_mask)))
      (complement v_leaf)
eval_flags or_mask (init_ref i index) = i.flags

-- The test on a register and an offset, both as words: the precedence of `&`, `+` and `<=` is that
-- of the source.
unfoldable pub is_near : ℕ → ℕ → Bool
is_near ptr offset =
    let low = bit_and ptr 0xff in
    let positive =
      if ltb offset (2 ^ 31) then ltb 0 (low + offset) else ltb (2 ^ 32 - offset) low in
    let small = if ltb offset (2 ^ 31) then leb (0xff + offset) 0x100 else true in
    positive && is_set (bit_and ptr (truth small))

abbrev pub min_type : NType → NType → NType
min_type a b = if ltb (rank b) (rank a) then b else a

-- `EvalType`; `none` where one of its calls of `Eval` gives no value.
unfoldable pub eval_type : Expression → Option NType
eval_type (empty flags) = some type_none
eval_type (number flags value n_type) = some n_type
eval_type (unary op a) = eval_type a
eval_type (init_ref i index) = some type_label
eval_type (binary op a b) =
    let ta = eval_type a in
    let tb = eval_type b in
    elim ta [
      | none ↦ none
      | some s ↦ elim tb [
        | none ↦ none
        | some t ↦
            if rank s == 4 && rank t == 1
            then elim (eval emuop_flag_address a) [
              | none ↦ none
              | some ptr ↦
                  if leb 0x100 ptr && leb ptr 0x3ff
                  then elim (eval 0 b) [
                    | none ↦ none
                    | some offset ↦ some (if is_near ptr offset then type_register else type_int)
                  ]
                  else some (min_type s t)
            ]
            else some (min_type s t)
      ]
    ]
