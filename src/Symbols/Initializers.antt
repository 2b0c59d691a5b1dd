-- ===== src/Symbols/Initializers.antt =====
-- `emuInitializer`.
use Prim.Native.Nat.{bit_and, bit_or}
use emufxtool.Base.{
  ℕ, ◌^◌, Option, none, some, List, [], ◌∷◌, ◌++◌, ◌&&◌, ltb, length as length_of, get_or,
  if◌then◌else◌,
}
use emufxtool.Base.Text.{Text}
use emufxtool.Words.{complement, add32, max_u32}
use emufxtool.Flags.{v_value, v_address, v_fixed, v_array, v_alias}
use emufxtool.Symbols.Values.{PropertyList, get_flags}

-- `ref` is the pointer to the initializer that an alias refers to, as a number of it.
pub record Initializer : Type 0 where
  pub symbol : Text
  pub flags : ℕ
  pub address : ℕ
  pub length : ℕ
  pub initial_values : List ℕ
  pub properties : PropertyList
  pub ref : Option ℕ

-- The two constructors.
abbrev pub new_initializer : Text → ℕ → Initializer
new_initializer sym attributes = record {
  symbol = sym;
  flags = attributes;
  address = 0;
  length = 1;
  initial_values = [];
  properties = [];
  ref = none;
}

unfoldable pub new_alias : Text → ℕ → Initializer → ℕ → Initializer
unfolding get_flags
new_alias sym ref_number ref_of offset = record {
  symbol = sym;
  flags = bit_or (get_flags ref_of.flags (bit_and max_u32 (complement v_array))) v_alias;
  address = offset;
  length = 1;
  initial_values = [];
  properties = [];
  ref = some ref_number;
}

-- The offset is an `int`, given by its 32 bits.
unfoldable pub get_address : Initializer → ℕ → ℕ
get_address i offset = add32 i.address offset

unfoldable pub get_initial_value : Initializer → ℕ → ℕ
get_initial_value i offset =
    if ltb offset (2 ^ 31) && ltb offset (length_of i.initial_values)
    then get_or i.initial_values offset 0
    else 0

unfoldable pub n_values : Initializer → ℕ
n_values i = length_of i.initial_values

unfoldable pub set_length : ℕ → Initializer → Initializer
set_length l i = record i { length = l }

unfoldable pub set_array_flag : Initializer → Initializer
set_array_flag i = record i { flags = bit_or i.flags v_array }

unfoldable pub add_value : ℕ → Initializer → Initializer
unfolding set_array_flag
add_value v i =
    let added : Initializer = record i {
      flags = bit_or i.flags v_value;
      initial_values = i.initial_values ++ v ∷ [];
    } in
    if ltb 1 (length_of added.initial_values) then set_array_flag added else added

unfoldable pub set_fixed_address : ℕ → Initializer → Initializer
set_fixed_address v i = record i { flags = bit_or i.flags (bit_or v_fixed v_address); address = v }

unfoldable pub set_address : ℕ → Initializer → Initializer
set_address v i = record i {
  flags = bit_or (bit_and i.flags (complement v_fixed)) v_address;
  address = v;
}
