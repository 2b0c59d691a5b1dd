-- ===== src/Patch/Hardware.antt =====
-- patch.C: what `emuPatch::hwSet` writes to the structure of the kernel driver, and what
-- `emuPatch::hwGet` reads from it. The calls of the driver are left out.
pub mod Placing
pub mod Instructions
pub mod Tests
use Prim.Native.Nat.{bit_and, bit_or}
use emufxtool.Base.{
  ℕ, zero, suc, ◌+◌, ◌-◌, ◌*◌, ◌^◌, ◌%◌, Bool, true, false, Option, none, some, List, [], ◌∷◌, ◌++◌,
  ◌==◌, ltb, length, get_or, get_elem?, set, if◌then◌else◌,
}
use emufxtool.Base.Table.{Table, nat_key, lookup, insert}
use emufxtool.Words.{u16, is_set}
use emufxtool.Flags.{
  v_gpr, v_line, v_linedata, v_lineaddr, v_trama, v_tramd, v_read, v_write, v_address,
}
use emufxtool.Dsp.{Dsp, Code64, split_instr, get_first_line_address}
use emufxtool.Image.Data.{RegisterImage, Code, Image}
use emufxtool.Image.Operations.{new_code}
use emufxtool.Driver.BitSets.{test_bit, set_bit}

-- The members of `emu10k1_fx8010_code_t` that the program uses, but for the controls.
pub record FxCode : Type 0 where
  pub gpr_valid : List ℕ
  pub gpr_map : List ℕ
  pub tram_valid : List ℕ
  pub tram_data_map : List ℕ
  pub tram_addr_map : List ℕ
  pub code_valid : List ℕ
  pub code : List Code64

-- `NINSTR`
abbrev pub ninstr : ℕ
ninstr = 512

infixl 5 ◌>>=◌
abbrev pub ◌>>=◌ {ℓ κ} : {A : Type ℓ} {B : Type κ} → Option A → (A → Option B) → Option B
none >>= f = none
some a >>= f = f a

-- A write to an array; `none` behind its end.
abbrev put {ℓ} : {A : Type ℓ} → List A → ℕ → A → Option (List A)
put xs i x = if ltb i (length xs) then some (set xs i x) else none

-- `emu_fx_set_bit`; `none` behind the end of the array.
abbrev mark : List ℕ → ℕ → Option (List ℕ)
mark v i = if ltb i (32 * length v) then some (set_bit v i) else none

-- `a - b` on `emu32`
abbrev minus : ℕ → ℕ → ℕ
minus a b = (a + (2 ^ 32 - b)) % 2 ^ 32

-- A register goes where its flags say; one without such a flag goes nowhere.
unfoldable pub poke_register : Dsp → ℕ → RegisterImage → FxCode → Option FxCode
unfolding get_first_line_address
poke_register d addr r code =
    let line = minus addr d.line_first in
    let address = minus addr (get_first_line_address d) in
    let gpr = minus addr d.gpr_first in
    if is_set (bit_and r.flags v_linedata)
    then (do
      valid ← mark code.tram_valid line
      map ← put code.tram_data_map line r.value
      some (record code { tram_valid = valid; tram_data_map = map }))
    else if is_set (bit_and r.flags v_lineaddr)
    then (do
      valid ← mark code.tram_valid address
      map ← put code.tram_addr_map address r.value
      some (record code { tram_valid = valid; tram_addr_map = map }))
    else if is_set (bit_and r.flags v_gpr)
    then (do
      valid ← mark code.gpr_valid gpr
      map ← put code.gpr_map gpr r.value
      some (record code { gpr_valid = valid; gpr_map = map }))
    else some code

unfoldable pub poke_registers : Dsp → Table ℕ RegisterImage → FxCode → Option FxCode
unfolding poke_register
poke_registers d [] code = some code
poke_registers d ((addr, r) ∷ registers) code = do
  code' ← poke_register d addr r code
  poke_registers d registers code'

-- The instructions, from the place `pc` on.
unfoldable pub poke_code : ℕ → List Code → FxCode → Option FxCode
poke_code pc [] code = some code
poke_code pc (c ∷ instructions) code = do
  valid ← mark code.code_valid pc
  words ← put code.code pc (record { high = c.hi; low = c.lo })
  poke_code (pc + 1) instructions (record code { code_valid = valid; code = words })

-- The structure that `hwSet` gives to the driver, from a cleared one.
unfoldable pub hw_set : Image → FxCode → Option FxCode
unfolding poke_registers poke_code
hw_set img cleared = do
  code ← poke_registers img.dsp img.registers cleared
  poke_code 0 img.code code

-- The instructions that are valid, in `rounds` places from `i` on.
unfoldable pub peek_code : (rounds : ℕ) → ℕ → Dsp → FxCode → List Code
peek_code zero i d code = []
peek_code (suc rounds) i d code =
    let rest = peek_code rounds (i + 1) d code in
    if test_bit code.code_valid i
    then new_code (u16 i) (split_instr d (get_or code.code i (record { high = 0; low = 0 }))) d
      ∷ rest
    else rest

-- The general purpose registers that are valid.
unfoldable pub peek_gprs :
    (rounds : ℕ) → ℕ → Dsp → FxCode → Table ℕ RegisterImage → Table ℕ RegisterImage
peek_gprs zero i d code registers = registers
peek_gprs (suc rounds) i d code registers =
    let addr = i + d.gpr_first in
    let r : RegisterImage = record {
      address = u16 addr;
      value = get_or code.gpr_map i 0;
      flags = bit_or v_gpr (bit_or v_read (bit_or v_write v_address));
    } in
    peek_gprs rounds (i + 1) d code
      (if test_bit code.gpr_valid i then insert addr r registers else registers)

-- The lines that are valid: first the address, then the data.
unfoldable pub peek_lines :
    (rounds : ℕ) → ℕ → Dsp → FxCode → Table ℕ RegisterImage → Table ℕ RegisterImage
unfolding get_first_line_address
peek_lines zero i d code registers = registers
peek_lines (suc rounds) i d code registers =
    let addr = i + get_first_line_address d in
    let line = i + d.line_first in
    let flags = λ (kind : ℕ).
      bit_or v_gpr (bit_or v_line (bit_or kind (bit_or v_read (bit_or v_write v_address)))) in
    let a : RegisterImage = record {
      address = u16 addr;
      value = get_or code.tram_addr_map i 0;
      flags = flags v_trama;
    } in
    let t : RegisterImage = record {
      address = u16 line;
      value = get_or code.tram_data_map i 0;
      flags = flags v_tramd;
    } in
    peek_lines rounds (i + 1) d code
      (if test_bit code.tram_valid i then insert line t (insert addr a registers) else registers)

-- What `hwGet` makes of the structure, but for the controls.
unfoldable pub hw_get : FxCode → Image → Image
unfolding peek_code peek_gprs peek_lines
hw_get code img =
    let gprs = peek_gprs img.dsp.gpr_count 0 img.dsp code img.registers in
    record img {
      code = img.code ++ peek_code ninstr 0 img.dsp code;
      registers = peek_lines img.dsp.line_count 0 img.dsp code gprs;
    }
