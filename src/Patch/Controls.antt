-- ===== src/Patch/Controls.antt =====
-- patch.C: the controls that `emuPatch::hwSet` gives to the kernel driver, and those that
-- `emuPatch::hwGet` takes from it.
use Prim.Native.Nat.{bit_or}
use emufxtool.Base.{
  ℕ, zero, suc, ◌+◌, Option, none, some, List, [], ◌∷◌, ◌++◌, ◌==◌, ◌&&◌, ◌||◌, leb, ltb, get_or,
  if◌then◌else◌,
}
use emufxtool.Base.Text.{Text, c_string}
use emufxtool.Base.Table.{Table, nat_key, lookup, insert}
use emufxtool.Words.{u8, u16, is_set}
use emufxtool.Flags.{v_gpr, v_stereo, v_onoff, v_control}
use emufxtool.Image.Data.{RegisterImage, Control, new_control_of, Export, Image}
use emufxtool.Compiler.Allocate.{table_none, table_t100, table_treble, table_bass, table_onoff}
use emufxtool.Parser.Reading.{to_upper, num_to_string}
use emufxtool.Patch.Hardware.{FxCode, ◌>>=◌, hw_set, hw_get}

-- `EMU10K1_GPR_TRANSLATION_`
pub data Translation : Type 0 where
  translation_none translation_table100 translation_bass translation_treble : Translation
  translation_onoff : Translation

-- The members of `emu10k1_fx8010_control_gpr_t` that the program uses; `count` is `vcount` too.
pub record FxControl : Type 0 where
  pub name : Text
  pub index : ℕ
  pub count : ℕ
  pub min : ℕ
  pub max : ℕ
  pub translation : Translation
  pub gpr : List ℕ
  pub value : List ℕ

unfoldable pub translation_of : ℕ → Translation
translation_of ttable =
    if ttable == table_t100
    then translation_table100
    else if ttable == table_bass
    then translation_bass
    else if ttable == table_treble
    then translation_treble
    else if ttable == table_onoff
    then translation_onoff
    else translation_none

unfoldable pub table_of : Translation → ℕ
table_of translation_none = table_none
table_of translation_table100 = table_t100
table_of translation_bass = table_bass
table_of translation_treble = table_treble
table_of translation_onoff = table_onoff

-- `Registers[addr].value`: a register that is missing is made.
unfoldable pub value_at : ℕ → Table ℕ RegisterImage → ℕ × Table ℕ RegisterImage
value_at addr registers = elim (lookup addr registers) [
  | some r ↦ (r.value, registers)
  | none ↦ (0, insert addr (record { address = 0; value = 0; flags = 0 }) registers)
]

-- The registers of a control from `addr` on, with their values.
unfoldable pub poke_values :
    ℕ → ℕ → Table ℕ RegisterImage → (List ℕ × List ℕ) × Table ℕ RegisterImage
unfolding value_at
poke_values zero addr registers = (([], []), registers)
poke_values (suc n) addr registers =
    let (v, registers1) = value_at addr registers in
    let ((gprs, values), registers2) = poke_values n (addr + 1) registers1 in
    ((addr ∷ gprs, v ∷ values), registers2)

unfoldable pub poke_controls :
    List Control → Table ℕ RegisterImage → List FxControl × Table ℕ RegisterImage
unfolding translation_of poke_values
poke_controls [] registers = ([], registers)
poke_controls (c ∷ controls) registers =
    let ((gprs, values), registers1) = poke_values c.ngprs c.first_gpr registers in
    let (rest, registers2) = poke_controls controls registers1 in
    let ctl : FxControl = record {
      name = c_string c.name;
      index = c.index;
      count = c.ngprs;
      min = c.range_min;
      max = c.range_max;
      translation = translation_of c.ttable;
      gpr = gprs;
      value = values;
    } in
    (ctl ∷ rest, registers2)

-- All of what `hwSet` gives to the driver, and the image that it leaves.
unfoldable pub hw_write : Image → FxCode → Option (List FxControl × FxCode × Image)
unfolding poke_controls hw_set
hw_write img cleared =
    let (controls, registers) = poke_controls img.controls img.registers in
    let img' = record img { registers = registers } in
    (do code ← hw_set img' cleared; some (controls, code, img'))

-- A name in capital letters, digits and underscores.
unfoldable pub escape_name : Text → Text
escape_name [] = []
escape_name (c ∷ cs) =
    let kept = (leb 0x41 c && leb c 0x5a) || (leb 0x30 c && leb c 0x39) in
    (if leb 0x61 c && leb c 0x7a then to_upper c else if kept then c else 0x5f) ∷ escape_name cs

unfoldable pub symbol_name : FxControl → Text
unfolding escape_name num_to_string
symbol_name ctl =
    let escaped = escape_name (c_string ctl.name) in
    if is_set ctl.index then escaped ++ 0x5f ∷ num_to_string ctl.index else escaped

abbrev control_flags : FxControl → ℕ
control_flags ctl =
    let stereo = if ltb 1 ctl.count then bit_or v_gpr v_stereo else v_gpr in
    if table_of ctl.translation == table_onoff then bit_or stereo v_onoff else stereo

abbrev control_exports : FxControl → ℕ → List Export
control_exports ctl addr =
    let of_flags : ℕ → List Export = λ flags.
      record { symbol = symbol_name ctl; flags = flags; address = addr; count = ctl.count } ∷ [] in
    if ctl.count == 1
    then of_flags (bit_or v_gpr v_control)
    else if ctl.count == 2
    then of_flags (bit_or v_gpr (bit_or v_control v_stereo))
    else []

unfoldable pub peek_controls : List FxControl → Image → Image
unfolding table_of symbol_name
peek_controls [] img = img
peek_controls (ctl ∷ controls) img =
    let addr = u16 (get_or ctl.gpr 0 0 + img.dsp.gpr_first) in
    let c =
      new_control_of (c_string ctl.name) (control_flags ctl) addr (u16 ctl.count) ctl.min ctl.max
        (table_of ctl.translation) (u8 ctl.index) in
    peek_controls controls (record img {
      controls = img.controls ++ c ∷ [];
      exports = img.exports ++ control_exports ctl addr;
    })

-- All of what `hwGet` takes from the driver.
unfoldable pub hw_read : List FxControl → FxCode → Image → Image
unfolding hw_get peek_controls
hw_read controls code img = peek_controls controls (hw_get code img)
