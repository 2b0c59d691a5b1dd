-- ===== src/Patch/Disassembly.antt =====
-- patch.C: `emuReverseSymbolTable`, and of `emuImage::unassemble` the names and labels that it finds
-- and the text of an instruction, `emuImage::unAsm`.
pub mod Uses
pub mod Names
pub mod Distinct
pub mod Labels
pub mod Tests
use Prim.Native.Nat.{bit_and, bit_or}
use emufxtool.Base.{
  ℕ, zero, suc, ◌+◌, ◌-◌, ◌*◌, ◌/◌, ◌^◌, ◌%◌, Bool, true, false, Option, none, some, List, [], ◌∷◌,
  ◌++◌, ◌==◌, ltb, length, get_or, if◌then◌else◌,
}
use emufxtool.Base.Text.{Text, codes, c_string}
use emufxtool.Base.Table.{Table, nat_key, lookup, insert}
use emufxtool.Words.{u16, add32, complement}
use emufxtool.Flags.{v_user, v_write}
use emufxtool.Dsp.{Dsp, Fields, is_gpr, is_line, is_iline}
use emufxtool.Image.Data.{RegisterImage, Code, Export, Image}
use emufxtool.Image.Operations.{get_value, split_code}

-- `emuReverseSymbolTable`: a map of addresses, and the pointer `D`.
pub record ReverseSymbols : Type 0 where
  pub symbols : Table ℕ Text
  pub dsp : Option Dsp

abbrev pub hex_digit : ℕ → ℕ
hex_digit n = if ltb n 10 then 0x30 + n else 0x57 + n

-- The digits of `n` in front of a text.
abbrev pub digits : (base : ℕ) → ℕ → ℕ → Text → Text
digits base zero n t = t
digits base (suc rounds) n t =
    let front = hex_digit (n % base) ∷ t in
    let rest = digits base rounds (n / base) front in if ltb n base then front else rest

abbrev pub zeros : ℕ → Text → Text
zeros zero t = t
zeros (suc n) t = 0x30 ∷ zeros n t

-- `%0<width>x` and `%0<width>d` of `sprintf`, of a word of 32 bits; no decimal is negative here.
abbrev pub padded : (base width : ℕ) → ℕ → Text
padded base width n = let t = digits base 10 n [] in zeros (width - length t) t

-- `a - b` on `emu32`, and on the bits of an `int`
abbrev minus : ℕ → ℕ → ℕ
minus a b = (a + (2 ^ 32 - b)) % 2 ^ 32

-- `GPR_BASE`, `TRAMD_BASE` and `TRAMA_BASE` are 0x100, 0x200 and 0x300.
unfoldable pub get_string : ReverseSymbols → ℕ → Text
unfolding is_gpr is_line is_iline
get_string st addr =
    let unknown = codes "?0x" ++ padded 16 3 addr in
    elim (lookup addr st.symbols) [
      | some name ↦ name
      | none ↦ elim st.dsp [
        | none ↦ unknown
        | some d ↦
            if is_gpr d addr
            then codes "_GPR_" ++ padded 16 2 (minus addr 0x100)
            else if is_line d addr
            then codes "_TRAM_" ++ padded 16 2 (minus addr 0x200)
            else if is_line d (minus addr d.line_address_offset)
            then codes "_TRAMA_" ++ padded 16 2 (minus addr 0x300)
            else if is_iline d addr
            then codes "_ITRAM_" ++ padded 16 2 (minus addr 0x200)
            else if is_iline d (minus addr d.line_address_offset)
            then codes "_ITRAMA_" ++ padded 16 2 (minus addr 0x300)
            else unknown
      ]
    ]

-- `emuReverseSymbolTable::addSymbol`
unfoldable pub add_symbol : ℕ → Text → ReverseSymbols → ReverseSymbols
add_symbol addr name st = record st { symbols = insert (u16 addr) name st.symbols }

-- `opcodes`
abbrev pub opcode_names : List Text
opcode_names =
    codes "MACS"
    ∷ codes "MACNS"
    ∷ codes "MACW"
    ∷ codes "MACNW"
    ∷ codes "MACINTS"
    ∷ codes "MACINTW"
    ∷ codes "ACC3"
    ∷ codes "MACMV"
    ∷ codes "ANDXOR"
    ∷ codes "TSTNEG"
    ∷ codes "LIMITGE"
    ∷ codes "LIMITL"
    ∷ codes "LOG"
    ∷ codes "EXP"
    ∷ codes "INTERP"
    ∷ codes "SKIP"
    ∷ codes "UNKNOWN"
    ∷ []

-- `INSTR_SKIP`
abbrev pub instr_skip : ℕ
instr_skip = 15

-- Where a skip goes to, by its operand `Y`, in `unAsm`.
unfoldable pub skip_target : Image → Code → ℕ → ℕ
unfolding get_value
skip_target img c y = u16 (c.pc + get_value img y + 1)

unfoldable pub un_asm : Image → Code → ReverseSymbols → ReverseSymbols → Text
unfolding split_code get_string skip_target
un_asm img c st labels =
    let f = split_code c img.dsp in
    let target : Text = elim (lookup (skip_target img c f.y) labels.symbols) [
      | some label ↦ codes ":" ++ label
      | none ↦ get_string st f.y
    ] in
    let y = if f.opcode == instr_skip then target else get_string st f.y in
    let name = get_or opcode_names (bit_and f.opcode 0x0f) [] in
    let operands =
      get_string st f.r
      ++ (codes ", "
          ++ (get_string st f.a ++ (codes ", " ++ (get_string st f.x ++ (codes ", " ++ y))))) in
    name ++ (codes " " ++ operands)

-- The names of an export, in `rounds` places from `i` on.
unfoldable pub add_export_places : (rounds : ℕ) → ℕ → Export → ReverseSymbols → ReverseSymbols
unfolding add_symbol c_string
add_export_places zero i e st = st
add_export_places (suc rounds) i e st =
    add_export_places rounds (i + 1) e (add_symbol (e.address + i) (c_string e.symbol) st)

unfoldable pub add_exports : List Export → ReverseSymbols → ReverseSymbols
unfolding add_symbol add_export_places c_string
add_exports [] st = st
add_exports (e ∷ exports) st = add_exports exports (
    if e.count == 1
    then add_symbol e.address (c_string e.symbol) st
    else add_export_places e.count 0 e st)

-- All registers are taken for unused.
unfoldable pub clear_uses : Table ℕ RegisterImage → Table ℕ RegisterImage
clear_uses [] = []
clear_uses ((addr, r) ∷ registers) =
    let flags = bit_and r.flags (complement (bit_or v_user v_write)) in
    (addr, record r { flags = flags }) ∷ clear_uses registers

-- Flags for a register, if the image has it.
unfoldable pub mark_use : ℕ → ℕ → Table ℕ RegisterImage → Table ℕ RegisterImage
mark_use addr flags registers = elim (lookup addr registers) [
  | none ↦ registers
  | some r ↦ insert addr (record r { flags = bit_or r.flags flags }) registers
]

-- The registers that an instruction uses.
unfoldable pub mark_uses : Fields → Table ℕ RegisterImage → Table ℕ RegisterImage
unfolding mark_use
mark_uses f registers =
    let written = mark_use f.r (bit_or v_user v_write) registers in
    mark_use f.y v_user (mark_use f.x v_user (mark_use f.a v_user written))

-- `sprintf(msg, "_L_%03d", nlabels)`
abbrev pub label_name : ℕ → Text
label_name n = codes "_L_" ++ padded 10 3 n

-- Where a skip goes to, in the loop that finds labels.
unfoldable pub label_target : Image → Code → ℕ → ℕ
unfolding get_value
label_target img c y = u16 (c.pc + get_value img y + 1)

-- The label of a place, where it has none; the number counts the labels.
unfoldable pub label_place : ℕ → ℕ × ReverseSymbols → ℕ × ReverseSymbols
unfolding add_symbol
label_place addr (n, labels) = elim (lookup addr labels.symbols) [
  | some _ ↦ (n, labels)
  | none ↦ (n + 1, add_symbol addr (label_name n) labels)
]

-- The registers' flags behind an instruction of the loop.
unfoldable pub use_registers : Code → Image → Image
unfolding split_code mark_uses
use_registers c img = record img { registers = mark_uses (split_code c img.dsp) img.registers }

-- The labels behind an instruction of the loop.
unfoldable pub label_skip : Image → Code → ℕ × ReverseSymbols → ℕ × ReverseSymbols
unfolding split_code label_place label_target
label_skip img c labels =
    let f = split_code c img.dsp in
    if f.opcode == instr_skip then label_place (label_target img c f.y) labels else labels

-- The loop over the instructions. It reads the registers' values and writes their flags.
unfoldable pub find_labels : List Code → Image → ℕ × ReverseSymbols → Image × ReverseSymbols
unfolding use_registers label_skip
find_labels [] img labels = (img, labels.1)
find_labels (c ∷ code) img labels =
    let img' = use_registers c img in find_labels code img' (label_skip img' c labels)
