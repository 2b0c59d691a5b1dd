-- ===== src/Parser/Variables.antt =====
-- `ParseVariables`: the attributes of a declaration, and its symbols.
use Prim.Native.Nat.{bit_and, bit_or}
use emufxtool.Base.{
  none, ℕ, zero, suc, ◌+◌, some, List, [], ◌∷◌, ◌++◌, ◌==◌, ◌&&◌, not, if◌then◌else◌,
}
use emufxtool.Base.Text.{Text, codes}
use emufxtool.Words.{complement, is_set}
use emufxtool.Flags.{
  v_address, v_read, v_write, v_fxbus, v_extin, v_extout, v_spec, v_tramd, v_trama, v_private,
  v_fixed, v_array, v_delay, v_lookup, v_line, v_tram, v_stereo, v_onoff, v_control,
}
use emufxtool.Symbols.Values.{set_flags, has_property, set_property, property_number}
use emufxtool.Symbols.Initializers.{
  Initializer, new_alias, set_length, add_value, get_initial_value, n_values,
}
use emufxtool.Scanner.Tables.{Token, symbol, token_identifier}
use emufxtool.Compiler.Objects.{object, initializer, update}
use emufxtool.Parser.Tokens
use emufxtool.Parser.State.{Library, Method, ok, stuck, pure, ◌>>=◌, ◌>>◌, gets, modify, give_up}
use emufxtool.Parser.Reading.{throw_err, throw_err_s, throw_err_t, push_back_word, add_symbol}
use emufxtool.Parser.Blocks.{is_symbol, is_name}
use emufxtool.Parser.Recursion.{get_next_token}
use emufxtool.Parser.Initializers.{parse_initializer, fill}

-- The flags that a kind of declaration has, those that it may have, and the properties that it
-- may have: a kind that has any may have no strings but those of a control.
pub record Declaration : Type 0 where
  pub init_options : ℕ
  pub valid_options : ℕ
  pub strings : List Text
  pub numbers : List Text

abbrev plain : ℕ → ℕ → Declaration
plain init valid = record { init_options = init; valid_options = valid; strings = []; numbers = [] }

unfoldable pub declaration_of : Token → Declaration
declaration_of t =
    let fxbus = bit_or v_read (bit_or v_fxbus v_fixed) in
    let extin = bit_or v_read (bit_or v_extin v_fixed) in
    let extout = bit_or v_write (bit_or v_extout v_fixed) in
    let spec = bit_or v_fixed (bit_or v_read v_spec) in
    let var = bit_or v_read v_write in
    let var_valid = bit_or var (
      bit_or v_array (
        bit_or v_address
          (bit_or v_private (bit_or v_fxbus (bit_or v_extin (bit_or v_extout v_fixed)))))) in
    let control = bit_or v_read v_control in
    if is_symbol t Tokens.t_fx_bus
    then plain fxbus fxbus
    else if is_symbol t Tokens.t_ext_in
    then plain extin extin
    else if is_symbol t Tokens.t_ext_out
    then plain extout extout
    else if is_symbol t Tokens.t_const
    then plain v_read (bit_or v_read (bit_or v_array v_private))
    else if is_symbol t Tokens.t_spec
    then plain spec spec
    else if is_symbol t Tokens.t_var
    then plain var var_valid
    else if is_symbol t Tokens.t_tram
    then record (plain v_tram (bit_or v_tram (bit_or v_delay v_lookup))) {
      numbers = codes "size" ∷ [];
    }
    else if is_symbol t Tokens.t_line
    then record (plain v_line (bit_or v_line (bit_or v_read v_write))) {
      numbers = codes "tram" ∷ codes "offset" ∷ codes "length" ∷ [];
    }
    else if is_symbol t Tokens.t_control
    then record (plain control (bit_or control (bit_or v_stereo v_onoff))) {
      strings = codes "name" ∷ codes "translation" ∷ [];
      numbers = codes "min" ∷ codes "max" ∷ codes "index" ∷ [];
    }
    else plain 0 0

abbrev without : ℕ → ℕ → ℕ
without flags mask = bit_and flags (complement mask)

-- `TmpOptions` after an attribute.
unfoldable pub add_attribute : Token → ℕ → Method ℕ
add_attribute t tmp =
    if is_symbol t Tokens.t_absolute
    then pure (bit_or tmp v_fixed)
    else if is_symbol t Tokens.t_export
    then pure (without tmp v_private)
    else if is_symbol t Tokens.t_private
    then pure (bit_or tmp v_private)
    else if is_symbol t Tokens.t_stereo
    then pure (bit_or tmp v_stereo)
    else if is_symbol t Tokens.t_mono
    then pure (without tmp v_stereo)
    else if is_symbol t Tokens.t_range
    then pure (without tmp v_onoff)
    else if is_symbol t Tokens.t_on_off
    then pure (bit_or tmp v_onoff)
    else if is_symbol t Tokens.t_read
    then pure (bit_or tmp v_read)
    else if is_symbol t Tokens.t_write
    then pure (bit_or tmp v_write)
    else if is_symbol t Tokens.t_delay
    then (if is_set (bit_and tmp v_lookup)
        then throw_err_s (codes "delay") (codes "cannot be used with 'lookup'")
        else pure (bit_or tmp v_delay))
    else if is_symbol t Tokens.t_lookup
    then (if is_set (bit_and tmp v_delay)
        then throw_err_s (codes "lookup") (codes "cannot be used with 'delay'")
        else pure (bit_or tmp v_lookup))
    else throw_err (codes "unexpected")

-- Two values for a stereo control, and its two aliases.
unfoldable pub two_values : Initializer → Initializer
two_values i =
    let i1 = set_length 2 i in
    let i2 = if n_values i1 == 0 then add_value 0 (add_value 0 i1) else i1 in
    if n_values i2 == 1 then add_value (get_initial_value i2 0) i2 else i2

-- An initializer is stored under its pointer.
unfoldable pub store : ℕ → Initializer → Method (Unit {0})
unfolding update
store pointer i p = elim (object p.program.elements pointer) [
  | none ↦ stuck
  | some _ ↦ ok tt (record p { program = update pointer i p.program })
]

unfoldable pub add_stereo : ℕ → Initializer → Method Initializer
unfolding two_values store add_symbol
add_stereo pointer i =
    let two = two_values i in
    let left = i.symbol ++ codes ".left" in
    let right = i.symbol ++ codes ".right" in
    let made = (do
      store pointer two
      l ← add_symbol left (initializer (new_alias left pointer two 0))
      r ← add_symbol right (initializer (new_alias right pointer two 1))
      pure two) in
    if is_set (bit_and i.flags v_stereo) then made else pure i

-- The elements of an array that have no value yet get 0; the length is an `int`.
unfoldable pub fill_array : Initializer → Initializer
unfolding fill
fill_array i =
    if is_set (bit_and i.flags v_array) && not (is_set (bit_and i.flags v_fixed))
    then fill i.length i
    else i

-- A tram line, with the aliases of its data and of its address.
unfoldable pub add_line : ℕ → Initializer → Method Initializer
unfolding store add_symbol
add_line pointer i =
    let data_name = i.symbol ++ codes ".data" in
    let address_name = i.symbol ++ codes ".address" in
    let made = (do
      tram ← gets (λ p. p.current_tram)
      let props =
          if has_property i.properties (codes "tram")
          then i.properties
          else (set_property i.properties (codes "tram") (property_number tram)).1
      let line : Initializer = record i {
        properties = props;
        flags = set_flags i.flags (bit_or v_tramd v_trama) v_tramd;
      }
      store pointer line
      let data_alias = new_alias data_name pointer line 0
      let address_alias = new_alias address_name pointer line 0x100
      d ←
          add_symbol data_name
            (initializer (record data_alias { flags = set_flags data_alias.flags v_tramd v_tramd }))
      a ← add_symbol address_name (
          initializer
            (record address_alias { flags = set_flags address_alias.flags v_trama v_trama }))
      pure line) in
    if is_set (bit_and i.flags v_line) then made else pure i

unfoldable pub add_tram : ℕ → Initializer → Method (Unit {0})
unfolding store
add_tram pointer i =
    let made = (do
      modify (λ p. record p { current_tram = p.current_tram + 1 })
      tram ← gets (λ p. p.current_tram)
      store pointer (add_value tram i)) in
    if is_set (bit_and i.flags v_tram) then made else pure tt

-- What becomes of a symbol that has been declared.
unfoldable pub add_declared : Initializer → Method (Unit {0})
unfolding add_symbol add_stereo fill_array store add_line add_tram
add_declared i = do
  pointer ← add_symbol i.symbol (initializer i)
  let is_array = is_set (bit_and i.flags v_array)
  if is_array && (n_values i == 0 && i.length == 0)
      then throw_err_s i.symbol (codes "array requires initializers or length")
      else pure tt
  i1 ← add_stereo pointer i
  let i2 = fill_array i1
  store pointer i2
  i3 ← add_line pointer i2
  add_tram pointer i3

module _ (lib : Library) (fuel : ℕ) where
  -- The attributes, up to the first name, which is pushed back.
  unfoldable pub attribute_loop : (rounds : ℕ) → (valid tmp : ℕ) → Method ℕ
  unfolding get_next_token add_attribute
  attribute_loop zero valid tmp = give_up
  attribute_loop (suc rounds) valid tmp = do
    t ← get_next_token lib fuel
    let more = (do
      tmp' ← add_attribute t tmp
      let rest = attribute_loop rounds valid tmp'
      if bit_and tmp' valid == tmp'
          then rest
          else throw_err (codes "not allowed for this datatype"))
    if is_name t then (do push_back_word; pure tmp) else more

  -- The symbols, up to the end of the instruction.
  unfoldable pub symbol_loop : (rounds : ℕ) → (options : ℕ) → Declaration → Method (Unit {0})
  unfolding get_next_token add_declared
  symbol_loop zero options d = give_up
  symbol_loop (suc rounds) options d = do
    t ← get_next_token lib fuel
    if is_name t then push_back_word else throw_err_t token_identifier
    i ← parse_initializer lib fuel options d.valid_options (some d.strings) (some d.numbers)
    add_declared i
    after ← get_next_token lib fuel
    let rest = symbol_loop rounds options d
    if is_symbol after Tokens.t_instruction_end
        then pure tt
        else if is_symbol after Tokens.t_list_separator
        then rest
        else throw_err_t (symbol Tokens.t_list_separator)

  -- `ParseVariables`
  unfoldable pub parse_variables : Method (Unit {0})
  unfolding get_next_token declaration_of attribute_loop symbol_loop
  parse_variables = do
    t ← get_next_token lib fuel
    let d = declaration_of t
    tmp ← attribute_loop fuel d.valid_options 0
    if bit_and tmp (bit_or v_line (bit_or v_delay v_lookup)) == v_line
        then throw_err_s (codes "delay|lookup") (codes "required for this datatype")
        else pure tt
    let numbers = if is_set (bit_and tmp v_onoff) then codes "index" ∷ [] else d.numbers
    symbol_loop fuel (bit_or d.init_options tmp) (record d { numbers = numbers })
