-- ===== src/Parser/Initializers.antt =====
-- `ParseInitializer`. Its early returns stand in `unless_end`.
use Prim.Native.Nat.{bit_and}
use emufxtool.Base.{
  ℕ, zero, suc, ◌+◌, ◌-◌, ◌^◌, Bool, Option, none, some, List, ◌==◌, ◌&&◌, ◌||◌, not, ltb,
  if◌then◌else◌,
}
use emufxtool.Base.Text.{Text, codes}
use emufxtool.Words.{is_set}
use emufxtool.Flags.{v_array, v_stereo, v_fixed, v_address}
use emufxtool.Symbols.Initializers.{
  Initializer, new_initializer, set_array_flag, set_length, set_fixed_address, add_value, n_values,
}
use emufxtool.Expression.Trees.{eval}
use emufxtool.Scanner.Tables.{Token, symbol}
use emufxtool.Compiler.Objects.{Operand, resolve}
use emufxtool.Parser.Tokens
use emufxtool.Parser.State.{Library, Method, ok, stuck, pure, ◌>>=◌, ◌>>◌, gets, give_up}
use emufxtool.Parser.Reading.{
  throw_err, throw_err_s, throw_err_t, get_last_word, push_back_word, resolve_symbol, value_of,
}
use emufxtool.Parser.Blocks.{is_symbol, is_name, expect}
use emufxtool.Parser.Recursion.{get_next_word, parse_expression, get_next_token}
use emufxtool.Parser.Declarations.{parse_properties}

-- `Eval(V_ADDRESS)`
abbrev pub address_of : Operand → Method ℕ
address_of o p = elim (resolve p.program o) [
  | none ↦ stuck
  | some e ↦ elim (eval v_address e) [ none ↦ stuck | some v ↦ ok v p ]
]

-- `RET_END`: is the declaration at its end?
unfoldable pub ends : Token → Bool
ends token = is_symbol token Tokens.t_list_separator || is_symbol token Tokens.t_instruction_end

unfoldable pub unless_end : Token → Initializer → Method Initializer → Method Initializer
unfolding ends
unless_end token i rest = if ends token then (do push_back_word; pure i) else rest

-- Is the number of elements refused? It is an `int`, by its 32 bits.
unfoldable pub is_bad_count : ℕ → Bool
is_bad_count n = (ltb 0x100 n && ltb n (2 ^ 31)) || n == 0

-- `addValue(0)`, so many times.
unfoldable pub add_zeros : ℕ → Initializer → Initializer
add_zeros zero i = i
add_zeros (suc n) i = add_zeros n (add_value 0 i)

-- `while (I->nValues() < count) I->addValue(0)`
unfoldable pub fill : ℕ → Initializer → Initializer
unfolding add_zeros
fill count i = if ltb count (2 ^ 31) then add_zeros (count - n_values i) i else i

module _ (lib : Library) (fuel : ℕ) where
  -- The number between square brackets; 0 where there is none.
  unfoldable pub array_count : Initializer → Method ℕ
  unfolding get_next_token value_of expect is_bad_count
  array_count i = do
    token ← get_next_token lib fuel
    let counted = (do
      push_back_word
      e ← parse_expression lib fuel
      n ← value_of e
      if is_bad_count n
          then throw_err_s i.symbol (codes "too big, limited to 255 elements")
          else pure tt
      expect lib (get_next_word lib fuel) Tokens.t_closed_square
      pure n)
    if is_symbol token Tokens.t_closed_square then pure 0 else counted

  -- Each part returns the initializer, the number of elements that are declared, and the token
  -- behind the part.
  unfoldable pub array_part : ℕ → Initializer → Token → Method (Initializer × ℕ × Token)
  unfolding array_count get_next_token
  array_part valid i token =
      let declared = (do
        count ← array_count (set_array_flag i)
        after ← get_next_token lib fuel
        let i' = set_array_flag i
        pure (if count == 0 then i' else set_length count i', count, after)) in
      if not (is_symbol token Tokens.t_open_square)
      then pure (i, 0, token)
      else if is_set (bit_and valid v_array)
      then declared
      else throw_err (codes "array not allowed for this datatype")

  unfoldable pub address_part :
      (options valid : ℕ) → Initializer → Token → Method (Initializer × Token)
  unfolding get_next_token
  address_part options valid i token =
      let fixed = (do
        e ← parse_expression lib fuel
        v ← address_of e
        after ← get_next_token lib fuel
        pure (set_fixed_address v i, after)) in
      if is_symbol token Tokens.t_address
      then (if is_set (bit_and valid v_fixed) then fixed else throw_err (codes "fixed not allowed"))
      else if is_set (bit_and options v_fixed)
      then throw_err_t (symbol Tokens.t_address)
      else pure (i, token)

  -- The values between braces, and how many they are.
  unfoldable pub value_loop : ℕ → ℕ → Initializer → Method (Initializer × ℕ)
  unfolding value_of get_next_token
  value_loop zero count i = give_up
  value_loop (suc rounds) count i = do
    e ← parse_expression lib fuel
    v ← value_of e
    token ← get_next_token lib fuel
    let more = value_loop rounds (count + 1) (add_value v i)
    if is_symbol token Tokens.t_closed_brace
        then pure (add_value v i, count + 1)
        else if is_symbol token Tokens.t_list_separator
        then more
        else throw_err_t (symbol Tokens.t_list_separator)

  unfoldable pub values : ℕ → Initializer → Method (Initializer × ℕ)
  unfolding expect value_loop value_of fill
  values declared i =
      let listed = (do
        expect lib (get_next_word lib fuel) Tokens.t_open_brace
        (i', count) ← value_loop fuel 0 i
        pure (fill declared i', count)) in
      let single = (do e ← parse_expression lib fuel; v ← value_of e; pure (add_value v i, 0)) in
      if is_set (bit_and i.flags v_array) || is_set (bit_and i.flags v_stereo)
      then listed
      else single

  unfoldable pub assign_part : ℕ → Initializer → Token → Method (Initializer × Token)
  unfolding values get_next_token
  assign_part declared i token =
      let assigned = (do
        (i1, count) ← values declared i
        let i2 = if declared == 0 && not (count == 0) then set_length count i1 else i1
        after ← get_next_token lib fuel
        let too_many =
            is_set (bit_and i2.flags v_array)
            && not (is_set (bit_and i2.flags v_fixed))
            && not (declared == 0)
            && (ltb declared count || not (ltb declared (2 ^ 31)))
        if too_many
            then throw_err_s i2.symbol (codes "has too many initializers")
            else pure (i2, after)) in
      if is_symbol token Tokens.t_assign then assigned else pure (i, token)

  unfoldable pub property_part :
      (strings numbers : Option (List Text)) → Initializer → Token → Method (Initializer × Token)
  unfolding parse_properties get_next_token
  property_part strings numbers i token =
      let listed = (do
        push_back_word
        props ← parse_properties lib fuel strings numbers (λ _. pure tt) i.properties
        after ← get_next_token lib fuel
        pure (record i { properties = props }, after)) in
      if is_symbol token Tokens.t_open_brace then listed else pure (i, token)

  -- `ParseInitializer`
  unfoldable pub parse_initializer :
      (options valid : ℕ) → (strings numbers : Option (List Text)) → Method Initializer
  unfolding get_next_token unless_end array_part address_part assign_part property_part
  parse_initializer options valid strings numbers = do
    first ← get_next_token lib fuel
    name ← get_last_word
    known ← gets (resolve_symbol name)
    if is_name first then pure tt else throw_err (codes "is not a valid initializer symbol")
    elim known [ none ↦ pure tt | some _ ↦ throw_err (codes "already defined") ]
    let i = new_initializer name options
    token ← get_next_token lib fuel
    unless_end token i (do
      (i1, declared, token1) ← array_part valid i token
      unless_end token1 i1 (do
        (i2, token2) ← address_part options valid i1 token1
        unless_end token2 i2 (do
          (i3, token3) ← assign_part declared i2 token2
          unless_end token3 i3 (do
            (i4, token4) ← property_part strings numbers i3 token3
            unless_end token4 i4 (pure i4)))))
