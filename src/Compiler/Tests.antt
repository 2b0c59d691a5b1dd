-- ===== src/Compiler/Tests.antt =====
-- A small program, compiled.
use emufxtool.Base.{◌≡◌, ◌<◌, refl, Option, none, some, [], ◌∷◌, arith, map}
use emufxtool.Base.Text.{codes, c_string}
use emufxtool.Symbols.Initializers.{new_initializer, set_address, get_address, get_initial_value}
use emufxtool.Symbols.Instructions.{new_instruction_of, set_pc, get_label_pc}
use emufxtool.Expression.Trees.{type_int, op_neg, eval_flags, eval, apply, needs_b}
use emufxtool.Dsp.{split_instr, extract64, join_instr, set64}
use emufxtool.Image.Data.{Image}
use emufxtool.Image.Operations.{
  new_image, split_code, new_export, new_instruction, map_constant, new_code, new_register,
  new_variable,
}
use emufxtool.Image.Allocation.{new_image-IsCoherent}
use emufxtool.Compiler.Objects.{
  nothing, constant, prefixed, reference, initializer, label, Program, update, resolve,
  as_initializer,
}
use emufxtool.Compiler.Assemble.{
  compile, compile_code, compile_instruction, export_symbols, compile_operand, export_symbol,
  number_from, operand_address, operand_value,
}
use emufxtool.Compiler.Compiled.{IsCompiled, compile-IsCompiled}
use emufxtool.Compiler.Allocate.{
  allocate_all, allocate, add_elements, add_variable, as_variable, kind_of, place, ref_address,
  with_control, with_elements,
}
use emufxtool.Symbols.Values.{set_flags}
use emufxtool.Image.Registers.{first_free}

-- `var gain = 5; skip gain, -7, 5, :end; macs gain, 0, 0, 0; end:`
abbrev small_program : Program
small_program = record {
  elements =
      some (initializer (record (new_initializer (codes "gain") 0xd) { initial_values = 5 ∷ [] }))
      ∷ some (label (record { symbol = codes "end"; instruction = none }))
      ∷ [];
  symlist = 0 ∷ 1 ∷ [];
  symtab = (codes "end", 1) ∷ (codes "gain", 0) ∷ [];
  ilist =
      new_instruction_of 15 (some (reference 0 nothing))
        (some (prefixed op_neg (constant 5 7 type_int))) (some (constant 5 5 type_int))
        (some (reference 1 nothing))
      ∷ new_instruction_of 0 (some (reference 0 nothing)) (some (constant 5 0 type_int))
          (some (constant 5 0 type_int)) (some (constant 5 0 type_int))
      ∷ [];
}

abbrev or_else : Program × Image → Option (Program × Image) → Program × Image
or_else d none = d
or_else d (some s) = s

abbrev compiled : Program × Image
compiled = or_else (small_program, new_image) (compile small_program new_image)

-- The constants -7, 5 and 1, which is the way from behind the first instruction to the end.
compiled_operands :
    map (λ c. split_code c new_image.dsp) compiled.1.code
    ≡ record { opcode = 15; r = 0x100; a = 0x101; x = 0x102; y = 0x41 }
      ∷ record { opcode = 0; r = 0x100; a = 0x40; x = 0x40; y = 0x40 }
      ∷ []
unfolding compile allocate_all allocate update compile_code compile_instruction set_pc resolve
    eval_flags as_initializer set_flags set_address eval apply export_symbols new_export
    new_instruction c_string add_elements add_variable as_variable kind_of place ref_address
    with_control with_elements compile_operand export_symbol number_from operand_address
    operand_value join_instr set64 needs_b map_constant new_code new_register new_variable
    first_free get_address get_initial_value get_label_pc split_code split_instr extract64
compiled_operands = refl

compiled_lem : (compile small_program new_image ≡ some compiled) × (compiled.1.current_gpr < 0x200)
unfolding compile allocate_all allocate update compile_code compile_instruction set_pc resolve
    eval_flags as_initializer set_flags set_address eval apply export_symbols new_export
    new_instruction c_string add_elements add_variable as_variable kind_of place ref_address
    with_control with_elements compile_operand export_symbol number_from operand_address
    operand_value join_instr set64 needs_b map_constant new_code new_register new_variable
    first_free get_address get_initial_value get_label_pc
compiled_lem = (refl, omega arith)

compile-IsCompiled_example : IsCompiled small_program new_image compiled.0 compiled.1
compile-IsCompiled_example =
    compile-IsCompiled small_program new_image compiled.0 compiled.1 new_image-IsCoherent
      (omega arith) compiled_lem.0 (omega (arith, compiled_lem.1))
