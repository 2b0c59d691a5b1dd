-- ===== src/Parser/Expressions.antt =====
-- `ParseExpressionElement` and `ParseExpression`. `next` is `GetNextWord`.
use emufxtool.Base.{ℕ, zero, suc, none, some, List, ◌∷◌, ◌||◌, if◌then◌else◌}
use Prim.Native.Nat.{bit_and}
use emufxtool.Base.Text.{Text, codes}
use emufxtool.Words.{is_set}
use emufxtool.Flags.{v_label, v_array}
use emufxtool.Symbols.Instructions.{new_label}
use emufxtool.Expression.Trees.{ExprOp, op_neg, op_not, op_lnot}
use emufxtool.Scanner.Tables.{Token}
use emufxtool.Compiler.Objects.{
  object, Operand, nothing, prefixed, combined, reference, Element, initializer, label,
}
use emufxtool.Parser.Operators.{OpToken, is_operator, settle, top}
use emufxtool.Parser.Tokens
use emufxtool.Parser.State.{Library, Method, pure, ok, stuck, ◌>>=◌, ◌>>◌, gets, give_up, defined}
use emufxtool.Parser.Reading.{
  throw_err, throw_err_s, get_last_word, push_back_word, a_macro, an_element, resolve_symbol,
  add_symbol,
}
use emufxtool.Parser.Blocks.{is_symbol, token_by, is_name, expect, expect_name}
use emufxtool.Parser.Numerals.{is_int, is_float, new_number, int_number, float_number, based_number}

-- The operators of `ParseExpression` among the tokens.
unfoldable pub op_token : Token → OpToken
op_token t =
    if is_symbol t Tokens.t_plus
    then OpToken.t_plus
    else if is_symbol t Tokens.t_minus
    then OpToken.t_minus
    else if is_symbol t Tokens.t_unary_minus
    then OpToken.t_unary_minus
    else if is_symbol t Tokens.t_times
    then OpToken.t_times
    else if is_symbol t Tokens.t_mod
    then OpToken.t_mod
    else if is_symbol t Tokens.t_divide
    then OpToken.t_divide
    else if is_symbol t Tokens.t_xor
    then OpToken.t_xor
    else if is_symbol t Tokens.t_l_shift
    then OpToken.t_lshift
    else if is_symbol t Tokens.t_r_shift
    then OpToken.t_rshift
    else if is_symbol t Tokens.t_equal
    then OpToken.t_equal
    else if is_symbol t Tokens.t_greater
    then OpToken.t_greater
    else if is_symbol t Tokens.t_greater_equal
    then OpToken.t_greater_equal
    else if is_symbol t Tokens.t_less_equal
    then OpToken.t_less_equal
    else if is_symbol t Tokens.t_less
    then OpToken.t_less
    else if is_symbol t Tokens.t_not_equal
    then OpToken.t_not_equal
    else if is_symbol t Tokens.t_and
    then OpToken.t_and
    else if is_symbol t Tokens.t_or
    then OpToken.t_or
    else if is_symbol t Tokens.t_not
    then OpToken.t_not
    else if is_symbol t Tokens.t_bitwise_and
    then OpToken.t_bitwise_and
    else if is_symbol t Tokens.t_bitwise_or
    then OpToken.t_bitwise_or
    else if is_symbol t Tokens.t_bitwise_not
    then OpToken.t_bitwise_not
    else if is_symbol t Tokens.t_power
    then OpToken.t_power
    else OpToken.t_other

-- The element that a pointer points to.
unfoldable pub element_at : ℕ → Method Element
element_at pointer p = elim (object p.program.elements pointer) [ none ↦ stuck | some e ↦ ok e p ]

-- `getFlags` and `getSymbol` of an element.
abbrev pub flags_of : Element → ℕ
flags_of (initializer i) = i.flags
flags_of (label l) = v_label

abbrev pub symbol_of : Element → Text
symbol_of (initializer i) = i.symbol
symbol_of (label l) = l.symbol

module _ (lib : Library) where
  -- `case tColon`
  unfoldable pub label_reference : Method Text → Method Operand
  unfolding expect_name element_at add_symbol
  label_reference next = do
    name ← expect_name lib next
    known ← gets (resolve_symbol name)
    elim known [
      | some (a_macro m) ↦
          throw_err_s name (codes "symbols previously declared cannot be used as labels")
      | some (an_element pointer) ↦ (do
        e ← element_at pointer
        if is_set (bit_and (flags_of e) v_label)
            then pure (reference pointer nothing)
            else throw_err_s name (codes "symbols previously declared cannot be used as labels"))
      | none ↦ (do
        pointer ← add_symbol name (label (new_label name))
        pure (reference pointer nothing))
    ]

  -- `case TOKEN_IDENTIFIER`. What becomes of a macro that is taken for an operand is not defined.
  unfoldable pub symbol_reference : Method Text → Method Operand → Method Operand
  unfolding element_at token_by expect
  symbol_reference next expression = do
    name ← get_last_word
    known ← gets (resolve_symbol name)
    elim known [
      | some (a_macro m) ↦ (do
        token ← token_by lib next
        if is_symbol token Tokens.t_open_square
            then throw_err_s m.name (codes "is not an array")
            else give_up)
      | some (an_element pointer) ↦ (do
        e ← element_at pointer
        token ← token_by lib next
        let indexed = (do
          index ← expression
          expect lib next Tokens.t_closed_square
          pure (reference pointer index))
        if is_symbol token Tokens.t_open_square
            then (if is_set (bit_and (flags_of e) v_array)
                then indexed
                else throw_err_s (symbol_of e) (codes "is not an array"))
            else (do push_back_word; pure (reference pointer nothing)))
      | none ↦ throw_err (codes "undefined")
    ]

  -- `while ((Token = GetNextToken()) == tPlus);`
  unfoldable pub skip_plus : ℕ → Method Text → Method Token
  unfolding token_by
  skip_plus zero next = give_up
  skip_plus (suc fuel) next = do
    token ← token_by lib next
    let rest = skip_plus fuel next
    if is_symbol token Tokens.t_plus then rest else pure token

  -- `ParseExpressionElement`; `expression` and `element` are its calls of `ParseExpression` and of
  -- itself.
  unfoldable pub element_body :
      ℕ → Method Text → (expression element : Method Operand) → Method Operand
  unfolding skip_plus label_reference symbol_reference
  element_body fuel next expression element = do
    token ← skip_plus fuel next
    word ← get_last_word
    let prefix = λ (op : ExprOp). (do a ← element; pure (prefixed op a))
    let inner = (do e ← expression; expect lib next Tokens.t_closed_paren; pure e)
    if is_symbol token Tokens.t_minus
        then prefix op_neg
        else if is_symbol token Tokens.t_bitwise_not
        then prefix op_not
        else if is_symbol token Tokens.t_not
        then prefix op_lnot
        else if is_int token
        then int_number lib word
        else if is_float token
        then pure (new_number lib word 0x23)
        else if is_symbol token Tokens.t_sharp || is_symbol token Tokens.t_bitwise_and
        then float_number lib next token
        else if is_symbol token Tokens.t_dollar
        then based_number lib next 16 0x24 (codes "invalid hexadecimal")
        else if is_symbol token Tokens.t_at
        then based_number lib next 8 0x40 (codes "invalid octal")
        else if is_symbol token Tokens.t_mod
        then based_number lib next 2 0x25 (codes "invalid binary")
        else if is_symbol token Tokens.t_colon
        then label_reference next
        else if is_name token
        then symbol_reference next expression
        else if is_symbol token Tokens.t_open_paren
        then inner
        else throw_err (codes "unexpected inside expression")

  -- `ParseExpression`, with its two stacks.
  unfoldable pub expression_loop :
      ℕ → Method Text → Method Operand → List Operand → List OpToken → Method Operand
  unfolding token_by op_token
  expression_loop zero next element es ops = give_up
  expression_loop (suc fuel) next element es ops = do
    e ← element
    token ← token_by lib next
    let op = op_token token
    (es', ops') ← defined (settle combined op (e ∷ es) ops)
    let rest = expression_loop fuel next element es' (op ∷ ops')
    let finished = (do push_back_word; defined (top es'))
    if is_operator op then rest else finished
