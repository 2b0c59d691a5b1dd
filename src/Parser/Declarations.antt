-- ===== src/Parser/Declarations.antt =====
-- `ParseInstruction` and `ParseInitializerProperties`. Loops run on fuel.
use emufxtool.Base.{
  ℕ, zero, suc, ◌+◌, ◌-◌, ◌^◌, Bool, true, false, Option, none, some, List, ◌||◌, if◌then◌else◌,
}
use emufxtool.Base.Text.{Text, codes}
use emufxtool.Words.{u8}
use emufxtool.Symbols.Values.{property_string, property_number, PropertyList, set_property}
use emufxtool.Symbols.Macros.{has_text}
use emufxtool.Symbols.Instructions.{Instruction, new_instruction_of}
use emufxtool.Scanner.Tables.{Token, symbol, token_string, token_identifier}
use emufxtool.Scanner.Literals.{escape}
use emufxtool.Compiler.Objects.{Operand}
use emufxtool.Parser.Tokens
use emufxtool.Parser.State.{Library, Method, pure, ◌>>=◌, ◌>>◌, gets, give_up}
use emufxtool.Parser.Reading.{throw_err_s, throw_err_t, get_last_word, push_back_word, value_of}
use emufxtool.Parser.Blocks.{is_symbol, is_name, expect}
use emufxtool.Parser.Recursion.{get_next_word, parse_expression, get_next_token}

abbrev is_string : Token → Bool
is_string token_string = true
is_string t = false

-- May a property have that name? All names are valid where there is no list.
abbrev is_valid_name : Option (List Text) → Text → Bool
is_valid_name none name = true
is_valid_name (some names) name = has_text name names

-- The number of an opcode from its token.
abbrev op_code_of : Token → ℕ
op_code_of (symbol n) = u8 (n + (2 ^ 8 - Tokens.t_macs))
op_code_of t = 0

module _ (lib : Library) (fuel : ℕ) where
  -- `ParseInstruction`; `none` is the null pointer, where a separator is missing.
  unfoldable pub parse_instruction : Method (Option (Instruction Operand))
  unfolding get_next_token
  parse_instruction = do
    tok ← get_next_token lib fuel
    r ← parse_expression lib fuel
    first ← get_next_token lib fuel
    let from_y = λ (a x : Operand). (do
      y ← parse_expression lib fuel
      pure (some (new_instruction_of (op_code_of tok) (some r) (some a) (some x) (some y))))
    let from_x = λ (a : Operand). (do
      x ← parse_expression lib fuel
      third ← get_next_token lib fuel
      if is_symbol third Tokens.t_list_separator then from_y a x else pure none)
    let from_a = (do
      a ← parse_expression lib fuel
      second ← get_next_token lib fuel
      if is_symbol second Tokens.t_list_separator then from_x a else pure none)
    if is_symbol first Tokens.t_list_separator then from_a else pure none

  -- The value of the property `name`.
  unfoldable pub property_value :
      (strings numbers : Option (List Text)) → Text → PropertyList → Method PropertyList
  unfolding get_next_token value_of
  property_value strings numbers name props = do
    token ← get_next_token lib fuel
    word ← get_last_word
    escaped ← gets (λ p. escape p.scanner.rules word)
    let refuse = throw_err_s name (codes "property not allowed for this object")
    let text =
        if is_valid_name strings name
        then pure (set_property props name (property_string escaped)).1
        else refuse
    let number = (do
      push_back_word
      e ← parse_expression lib fuel
      v ← value_of e
      if is_valid_name numbers name
          then pure (set_property props name (property_number v)).1
          else refuse)
    if is_string token then text else number

  -- The loop of `ParseInitializerProperties`. `store` puts the list where it belongs.
  unfoldable pub property_loop :
      (rounds : ℕ)
      → (strings numbers : Option (List Text)) → (PropertyList → Method (Unit {0}))
      → PropertyList
      → Method PropertyList
  unfolding get_next_token property_value
  property_loop zero strings numbers store props = give_up
  property_loop (suc rounds) strings numbers store props = do
    token ← get_next_token lib fuel
    name ← get_last_word
    let one = (do
      expect lib (get_next_word lib fuel) Tokens.t_assign
      props' ← property_value strings numbers name props
      store props'
      after ← get_next_token lib fuel
      if is_symbol after Tokens.t_list_separator then pure tt else push_back_word
      property_loop rounds strings numbers store props')
    if is_symbol token Tokens.t_closed_brace
        then pure props
        else if is_name token || is_symbol token Tokens.t_tram
        then one
        else throw_err_t token_identifier

  -- `ParseInitializerProperties`
  unfoldable pub parse_properties :
      (strings numbers : Option (List Text))
      → (PropertyList → Method (Unit {0}))
      → PropertyList
      → Method PropertyList
  unfolding property_loop
  parse_properties strings numbers store props = do
    expect lib (get_next_word lib fuel) Tokens.t_open_brace
    property_loop fuel strings numbers store props
