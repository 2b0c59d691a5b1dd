-- ===== src/Symbols/Tests.antt =====
-- Runs of the symbols.
use Prim.Native.Nat.{bit_and}
use emufxtool.Base.{
  get_elem?, ℕ, ◌^◌, ◌<◌, ◌≡◌, refl, true, false, none, some, List, [], ◌∷◌, length, ltb, map,
  arith, if◌then◌else◌,
}
use emufxtool.Base.Text.{codes, text_eq}
use emufxtool.Words.{complement}
use emufxtool.Flags.{v_gpr}
use emufxtool.Symbols.Values.{
  get_flags, set_flags, PropertyList, has_property, set_property, property_number,
}
use emufxtool.Symbols.Initializers.{
  Initializer, new_initializer, n_values, add_value, set_address, set_fixed_address,
}
use emufxtool.Symbols.Macros.{Macro, add_parameter, expand, expand_loop, bind_arguments}
use emufxtool.Symbols.Instructions.{
  Instruction, new_instruction_of, add_instruction, Label, new_label, set_instruction, get_label_pc,
}
use emufxtool.Symbols.FlagLaws.{known, known_of, get_flags-set_flags, known-set_property}
use emufxtool.Symbols.InitializerLaws.{
  IsInitializer, IsAdded, add_value-IsAdded, IsPlaced, set_address-IsPlaced,
}
use emufxtool.Symbols.MacroLaws.{HasParameter, add_parameter-HasParameter}
use emufxtool.Symbols.Expansion.{substitute, unwords, expand-unwords}
use emufxtool.Symbols.InstructionLaws.{IsNumbered, add_instruction-IsNumbered}

get_flags-set_flags_example :
    (get_flags (set_flags 0x105 0x0f 0x02) 0x0f ≡ bit_and 0x02 0x0f)
    × (get_flags (set_flags 0x105 0x0f 0x02) (complement 0x0f) ≡ get_flags 0x105 (complement 0x0f))
get_flags-set_flags_example =
    get_flags-set_flags 0x105 0x0f 0x02 (omega arith) (omega arith) (omega arith)

abbrev properties : PropertyList
properties = (codes "min", property_number 3) ∷ []

known-set_property_example :
    ((set_property properties (codes "max") (property_number 9)).0
      ≡ has_property properties (codes "max"))
    × (known (set_property properties (codes "max") (property_number 9)).1 (codes "min") ≡ (
        if text_eq (codes "max") (codes "min")
        then known_of (property_number 9)
        else known properties (codes "min")))
known-set_property_example =
    known-set_property properties (codes "max") (codes "min") (property_number 9)

abbrev gain : Initializer
gain = new_initializer (codes "gain") v_gpr

gain-IsInitializer : IsInitializer gain
unfolding n_values
gain-IsInitializer = record {
  word = omega arith;
  value_flag = λ h. absurd (omega (arith, h));
  array_flag = λ h. absurd (omega (arith, h));
}

gain-room : n_values gain < 2 ^ 31
unfolding n_values
gain-room = omega arith

add_value-IsAdded_example : IsAdded gain 7 (add_value 7 gain)
add_value-IsAdded_example = add_value-IsAdded gain 7 gain-IsInitializer gain-room

set_address-IsPlaced_example :
    IsPlaced gain 0x120 true (set_fixed_address 0x120 gain)
    × IsPlaced gain 0x120 false (set_address 0x120 gain)
set_address-IsPlaced_example = set_address-IsPlaced gain 0x120 (omega arith)

-- `mac(a, b)` with the tokens `a = b ;`
abbrev mac : Macro
mac = record {
  name = codes "mac";
  parameters = codes "a" ∷ codes "b" ∷ [];
  tokens = codes "a" ∷ codes "=" ∷ codes "b" ∷ codes ";" ∷ [];
}

add_parameter-HasParameter_example : HasParameter mac (codes "c") (add_parameter (codes "c") mac)
add_parameter-HasParameter_example = add_parameter-HasParameter (codes "c") mac (refl, (refl, tt))

expand-unwords_example : expand mac (codes "x" ∷ codes "1" ∷ []) ≡ (
    if ltb (length (codes "x" ∷ codes "1" ∷ [])) (length mac.parameters)
    then none
    else some (unwords (map (substitute mac.parameters (codes "x" ∷ codes "1" ∷ [])) mac.tokens)))
expand-unwords_example = expand-unwords mac (codes "x" ∷ codes "1" ∷ []) (refl, (refl, tt)) refl

expand-mac : expand mac (codes "x" ∷ codes "1" ∷ []) ≡ some (codes "x = 1 ;")
unfolding expand expand_loop bind_arguments
expand-mac = refl

-- `##` joins a parameter and a token.
expand-joined :
    expand
      (record mac { tokens = codes "a" ∷ codes "##" ∷ codes "_in" ∷ [] })
      (codes "x" ∷ codes "1" ∷ [])
    ≡ some (codes "x_in")
unfolding expand expand_loop bind_arguments
expand-joined = refl

abbrev start : Label
start = new_label (codes "start")

abbrev no_code : List (Instruction ℕ)
no_code = []

abbrev first : Instruction ℕ
first = new_instruction_of 4 (some 1) (some 2) (some 3) (some 4)

add_instruction-IsNumbered_example :
    let code' = add_instruction first no_code in
    IsNumbered code'
    × (length code' ≡ 1)
    × (get_label_pc (set_instruction 0 start) code' ≡ 0)
    × ((n : ℕ)
        → n < 0
        → get_label_pc (set_instruction n start) code'
          ≡ get_label_pc (set_instruction n start) no_code)
    × (get_elem? code' 0
        ≡ some (record { op_code = 4; r = some 1; a = some 2; x = some 3; y = some 4; pc = 0 }))
    × ((n : ℕ) → n < 0 → get_elem? code' n ≡ get_elem? no_code n)
add_instruction-IsNumbered_example =
    add_instruction-IsNumbered no_code first start (λ n i h. ground (arith, h))
