-- ===== src/Compiler/Assemble.antt =====
-- The loops over `ILIST` and `SYMTAB`, and `compile`.
use Prim.Native.Nat.{bit_and}
use emufxtool.Base.{ℕ, ◌+◌, Option, none, some, List, [], ◌∷◌, length, ltb, if◌then◌else◌}
use emufxtool.Base.Text.{Text, c_string}
use emufxtool.Base.Table.{Table}
use emufxtool.Words.{u16, sub32, is_set}
use emufxtool.Flags.{v_address, v_label, v_private, v_array}
use emufxtool.Symbols.Initializers.{Initializer, get_address}
use emufxtool.Symbols.Instructions.{Instruction, set_pc}
use emufxtool.Expression.Trees.{Expression, emuop_flag_address, eval, eval_flags}
use emufxtool.Dsp.{Fields}
use emufxtool.Image.Data.{Image}
use emufxtool.Image.Operations.{map_constant, new_instruction, new_export}
use emufxtool.Compiler.Objects.{object, Operand, Program, as_initializer, resolve}
use emufxtool.Compiler.Allocate.{allocate_all}

-- `setPC` for every instruction, from `pc` on.
unfoldable pub number_from : ℕ → List (Instruction Operand) → List (Instruction Operand)
number_from pc [] = []
number_from pc (i ∷ code) = set_pc pc i ∷ number_from (pc + 1) code

-- The value that an operand without an address has in the code: a label becomes the distance from
-- the instruction behind this one, and a label that has no instruction stands at the end.
unfoldable pub operand_value : ℕ → ℕ → Expression → Option ℕ
operand_value size pc e = elim (eval 0 e) [
  | none ↦ none
  | some value ↦ some (
      if is_set (bit_and (eval_flags 0 e) v_label)
      then sub32 (sub32 (if ltb size value then size else value) pc) 1
      else value)
]

-- The address of an operand: its own, or that of a constant with its value.
unfoldable pub operand_address : ℕ → ℕ → Expression → Image → Option (ℕ × Image)
unfolding operand_value
operand_address size pc e img =
    if is_set (bit_and (eval_flags 0 e) v_address)
    then elim (eval emuop_flag_address e) [ none ↦ none | some addr ↦ some (u16 addr, img) ]
    else elim (operand_value size pc e) [
      | none ↦ none
      | some value ↦ let (addr, img') = map_constant img value in some (u16 addr, img')
    ]

-- An operand of an instruction: none where its pointer is null, or leads to nothing.
unfoldable pub compile_operand : Program → ℕ → Option Operand → Image → Option (ℕ × Image)
unfolding operand_address
compile_operand p pc none img = none
compile_operand p pc (some o) img = elim (resolve p o) [
  | none ↦ none
  | some e ↦ operand_address (length p.ilist) pc e img
]

infixl 5 ◌>>=◌
abbrev pub ◌>>=◌ : {A B : Type 0} → Option A → (A → Option B) → Option B
none >>= f = none
some a >>= f = f a

unfoldable pub compile_instruction : Program → Instruction Operand → Image → Option Image
unfolding compile_operand
compile_instruction p i img = do
  (r, img1) ← compile_operand p i.pc i.r img
  (a, img2) ← compile_operand p i.pc i.a img1
  (x, img3) ← compile_operand p i.pc i.x img2
  (y, img4) ← compile_operand p i.pc i.y img3
  let f : Fields = record { opcode = i.op_code; r = r; a = a; x = x; y = y }
  some (new_instruction img4 f).1

unfoldable pub compile_code : Program → List (Instruction Operand) → Image → Option Image
compile_code p [] img = some img
compile_code p (i ∷ code) img = elim (compile_instruction p i img) [
  | none ↦ none
  | some img' ↦ compile_code p code img'
]

-- One symbol of the table, unless it is private.
unfoldable pub export_symbol : Text → Initializer → Image → Image
export_symbol name i img =
    let count = if is_set (bit_and i.flags v_array) then u16 i.length else 1 in
    if is_set (bit_and i.flags v_private)
    then img
    else (new_export img (c_string name) i.flags (u16 (get_address i 0)) count).1

-- The loop over `SYMTAB`, in the order of the names.
unfoldable pub export_symbols : Program → Table Text ℕ → Image → Option Image
unfolding export_symbol
export_symbols p [] img = some img
export_symbols p ((name, pointer) ∷ symbols) img = elim (object p.elements pointer) [
  | none ↦ none
  | some e ↦ export_symbols p symbols (export_symbol name (as_initializer p.ilist e) img)
]

-- `none` where an expression has no value or a pointer leads to nothing.
unfoldable pub compile : Program → Image → Option (Program × Image)
unfolding number_from
compile p img = do
  (p', allocated) ← allocate_all p.symlist (record p { ilist = number_from 0 p.ilist }, img)
  coded ← compile_code p' p'.ilist allocated
  exported ← export_symbols p' p'.symtab coded
  some (p', exported)
