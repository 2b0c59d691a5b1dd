-- ===== src/Symbols/Values.antt =====
-- `emuValue`: the flag word of every symbol and expression. And `emuInitializerPropertyList`.
use Prim.Native.Nat.{bit_and, bit_or}
use emufxtool.Base.{ℕ, Bool, true, false, none, some, [], ◌==◌}
use emufxtool.Base.Text.{Text, text_key}
use emufxtool.Base.Table.{Table, lookup, insert}
use emufxtool.Words.{complement, is_set}
use emufxtool.Flags.{v_value, v_address, v_read, v_write, v_macro}

unfoldable pub get_flags : ℕ → ℕ → ℕ
get_flags flags mask = bit_and flags mask

unfoldable pub set_flags : ℕ → ℕ → ℕ → ℕ
set_flags flags mask values = bit_or (bit_and flags (complement mask)) (bit_and values mask)

unfoldable pub is_constant : ℕ → Bool
is_constant flags = bit_and flags (bit_or v_read v_write) == v_read

unfoldable pub is_macro : ℕ → Bool
is_macro flags = is_set (bit_and flags v_macro)

unfoldable pub has_value : ℕ → Bool
has_value flags = is_set (bit_and flags v_value)

unfoldable pub has_address : ℕ → Bool
has_address flags = is_set (bit_and flags v_address)

-- `emuInitializerPropertyString` and `emuInitializerPropertyNumber`
pub data Property : Type 0 where
  property_string : Text → Property
  property_number : ℕ → Property

-- `iType`
pub data PropertyType : Type 0 where
  none_type number_type string_type : PropertyType

abbrev pub PropertyList : Type 0
PropertyList = Table Text Property

unfoldable pub has_property : PropertyList → Text → Bool
has_property p name = elim (lookup name p) [ none ↦ false | some _ ↦ true ]

-- The two `setProperty`: was there a property of that name?
unfoldable pub set_property : PropertyList → Text → Property → Bool × PropertyList
unfolding has_property
set_property p name value = (has_property p name, insert name value p)

unfoldable pub get_property_type : PropertyList → Text → PropertyType
get_property_type p name = elim (lookup name p) [
  | none ↦ none_type
  | some (property_string s) ↦ string_type
  | some (property_number n) ↦ number_type
]

unfoldable pub get_string_property : PropertyList → Text → Text
get_string_property p name = elim (lookup name p) [
  | none ↦ []
  | some (property_string s) ↦ s
  | some (property_number n) ↦ []
]

unfoldable pub get_number_property : PropertyList → Text → ℕ
get_number_property p name = elim (lookup name p) [
  | none ↦ 0
  | some (property_string s) ↦ 0
  | some (property_number n) ↦ n
]
