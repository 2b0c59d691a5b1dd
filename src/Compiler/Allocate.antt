-- ===== src/Compiler/Allocate.antt =====
-- The first loop over `SYMLIST`: every symbol gets its place in the image.
use Prim.Native.Nat.{bit_and, bit_or}
use emufxtool.Base.{
  ℕ, zero, suc, ◌+◌, ◌-◌, ◌^◌, ltb, Option, none, some, List, [], ◌∷◌, ◌==◌, ◌&&◌, not,
  if◌then◌else◌,
}
use emufxtool.Base.Text.{Text, codes, c_string, text_eq}
use emufxtool.Words.{u16, add32, is_set}
use emufxtool.Flags.{
  v_value, v_address, v_read, v_write, v_gpr, v_label, v_fixed, v_array, v_line, v_tram, v_onoff,
  v_alias, v_control, v_constant, max_pos,
}
use emufxtool.Symbols.Values.{set_flags, get_string_property, get_number_property}
use emufxtool.Symbols.Initializers.{Initializer, get_initial_value, get_address, set_address}
use emufxtool.Image.Data.{Image}
use emufxtool.Image.Operations.{new_line, new_tram, new_variable, map_constant, new_control}
use emufxtool.Compiler.Objects.{object, initializer, label, Program, as_initializer, update}

-- `emuControl::emuTTable`
abbrev pub table_none : ℕ
table_none = 0

abbrev pub table_t100 : ℕ
table_t100 = 1

abbrev pub table_treble : ℕ
table_treble = 2

abbrev pub table_bass : ℕ
table_bass = 3

abbrev pub table_onoff : ℕ
table_onoff = 4

-- The table of a control, by its property `translation`.
unfoldable pub translation_table : Text → ℕ → ℕ
translation_table tt ttable =
    if text_eq tt []
    then ttable
    else if text_eq tt (codes "t100")
    then table_t100
    else if text_eq tt (codes "bass")
    then table_bass
    else if text_eq tt (codes "treble")
    then table_treble
    else if text_eq tt (codes "onoff")
    then table_onoff
    else table_none

unfoldable pub add_control : Initializer → ℕ → Image → Image
unfolding translation_table
add_control i fl img =
    let on_off = is_set (bit_and fl v_onoff) in
    let min = if on_off then 0 else get_number_property i.properties (codes "min") in
    let max = if on_off then max_pos else get_number_property i.properties (codes "max") in
    let ttable = if on_off then table_onoff else table_t100 in
    let tt = get_string_property i.properties (codes "translation") in
    let name = c_string (get_string_property i.properties (codes "name")) in
    (new_control img name fl (u16 (get_address i 0)) (u16 i.length) min max
      (translation_table tt ttable)).1

-- `for (j = 1; j < Length(); j++)`, by the rounds that are left.
unfoldable pub add_elements : ℕ → ℕ → Initializer → ℕ → Image → Image
add_elements zero j i flags img = img
add_elements (suc rounds) j i flags img =
    add_elements rounds (j + 1) i flags (new_variable img (get_initial_value i j) flags).1

abbrev pub variable_flags : ℕ → ℕ
variable_flags fl = bit_or v_gpr (bit_or v_read (bit_or v_write (bit_and fl v_control)))

-- `setAddress`, and `setFlags` with `V_GPR`.
unfoldable pub as_variable : ℕ → Initializer → Initializer
as_variable addr i =
    let placed = set_address addr i in record placed { flags = set_flags placed.flags v_gpr v_gpr }

-- The length is an `int`, by its 32 bits.
unfoldable pub with_elements : Initializer → ℕ → Image → Image
unfolding add_elements
with_elements i fl img =
    if is_set (bit_and fl v_array)
    then add_elements (if ltb i.length (2 ^ 31) then i.length - 1 else 0) 1 i (variable_flags fl)
        img
    else img

unfoldable pub with_control : Initializer → ℕ → Image → Image
unfolding add_control
with_control i fl img = if is_set (bit_and fl v_control) then add_control i fl img else img

-- The last branch: a variable, with its further elements and its control.
unfoldable pub add_variable : Initializer → ℕ → Image → Initializer × Image
unfolding as_variable with_elements with_control
add_variable i fl img =
    let (addr, first) = new_variable img (get_initial_value i 0) (variable_flags fl) in
    let i' = as_variable addr i in (i', with_control i' fl (with_elements i' fl first))

-- The branches of the loop, in the order of their tests.
pub data Kind : Type 0 where
  fixed_symbol alias tram label_symbol pure_constant line mapped_constant variable : Kind

unfoldable pub kind_of : ℕ → Kind
kind_of fl =
    if is_set (bit_and fl v_fixed)
    then fixed_symbol
    else if is_set (bit_and fl v_alias)
    then alias
    else if is_set (bit_and fl v_tram)
    then tram
    else if is_set (bit_and fl v_label)
    then label_symbol
    else if fl == bit_or v_read v_value
    then pure_constant
    else if is_set (bit_and fl v_line)
    then line
    else if bit_and fl (bit_or v_constant v_write) == v_constant
        && not (is_set (bit_and fl (bit_or v_array v_control)))
    then mapped_constant
    else variable

-- One symbol that has no address yet. `ref` is the address of what an alias refers to.
unfoldable pub place : Kind → ℕ → Initializer → Image → Initializer × Image
unfolding add_variable
place fixed_symbol ref i img = (i, img)
place alias ref i img = (set_address (add32 (get_address i 0) ref) i, img)
place tram ref i img =
    let size = get_number_property i.properties (codes "size") in
    (i, (new_tram img (get_initial_value i 0) size).1)
place label_symbol ref i img = (i, img)
place pure_constant ref i img = (i, img)
place line ref i img =
    let offset = get_number_property i.properties (codes "offset") in
    let (addr, img') = new_line img offset i.flags in (set_address addr i, img')
place mapped_constant ref i img =
    let (addr, img') = map_constant img (get_initial_value i 0) in (set_address addr i, img')
place variable ref i img = add_variable i i.flags img

-- The address of what an alias refers to; `none` where its pointer points to nothing.
unfoldable pub ref_address : Program → Initializer → Option ℕ
ref_address p i = if not (is_set (bit_and i.flags v_alias)) then some 0 else elim i.ref [
  | none ↦ none
  | some q ↦ elim (object p.elements q) [
    | none ↦ none
    | some e ↦ some (get_address (as_initializer p.ilist e) 0)
  ]
]

-- One round. A label has flags that let the source do nothing with it.
unfoldable pub allocate : ℕ → Program × Image → Option (Program × Image)
unfolding place kind_of ref_address
allocate pointer (p, img) = elim (object p.elements pointer) [
  | none ↦ none
  | some (label l) ↦ some (p, img)
  | some (initializer i) ↦
      if is_set (bit_and i.flags v_address) then some (p, img) else elim (ref_address p i) [
        | none ↦ none
        | some ref ↦
            let (i', img') = place (kind_of i.flags) ref i img in some (update pointer i' p, img')
      ]
]

unfoldable pub allocate_all : List ℕ → Program × Image → Option (Program × Image)
allocate_all [] s = some s
allocate_all (pointer ∷ pointers) s = elim (allocate pointer s) [
  | none ↦ none
  | some s' ↦ allocate_all pointers s'
]
