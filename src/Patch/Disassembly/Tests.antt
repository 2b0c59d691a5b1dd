-- ===== src/Patch/Disassembly/Tests.antt =====
-- Tests of the disassembler.
use emufxtool.Base.{◌↔◌, arith, ◌≡◌, refl, [], ◌∷◌, some}
use emufxtool.Base.Text.{Text, codes}
use emufxtool.Base.Table.{nat_key}
use emufxtool.Dsp.{Fields, init_defaults}
use emufxtool.Image.Data.{Code, Image}
use emufxtool.Image.Operations.{split_code, new_image, new_code}
use emufxtool.Patch.Disassembly.{ReverseSymbols, instr_skip, un_asm, find_labels}
use emufxtool.Patch.Disassembly.Labels.{IsListed, un_asm-skip_label}
use emufxtool.Patch.Disassembly.Uses.{jump}

abbrev skip_code : Code
skip_code = record { hi = 0xf10440; lo = 0x10442; pc = 3 }

abbrev no_symbols : ReverseSymbols
no_symbols = record { symbols = []; dsp = some init_defaults }

abbrev labels : ReverseSymbols
labels = record { symbols = (6, codes "_L_000") ∷ []; dsp = some init_defaults }

-- Over two instructions: the operand `0x042` is the constant 2.
find_labels-skip : (find_labels (skip_code ∷ skip_code ∷ []) new_image (0, no_symbols)).1 ≡ labels
unfolding find_labels emufxtool.Dsp.split_instr emufxtool.Image.Operations.constant_at
find_labels-skip = refl

un_asm-skip :
    un_asm new_image skip_code no_symbols labels ≡ codes "SKIP ?0x041, ?0x040, ?0x041, :_L_000"
unfolding un_asm emufxtool.Dsp.split_instr emufxtool.Image.Operations.constant_at
un_asm-skip = refl

abbrev later_skip : Code
later_skip = record { hi = 0xf10440; lo = 0x10442; pc = 4 }

abbrev two_skips : Image
two_skips = record new_image { code = skip_code ∷ later_skip ∷ [] }

skip_code-opcode : (split_code skip_code init_defaults).opcode ≡ instr_skip
unfolding split_code emufxtool.Dsp.split_instr
skip_code-opcode = refl

later_skip-opcode : (split_code later_skip init_defaults).opcode ≡ instr_skip
unfolding split_code emufxtool.Dsp.split_instr
later_skip-opcode = refl

un_asm-skip_label_example :
    (l : Text) × (m : Text) × IsListed two_skips no_symbols skip_code l
    × IsListed two_skips no_symbols later_skip m
    × ((l ≡ m) ↔ (jump two_skips skip_code ≡ jump two_skips later_skip))
un_asm-skip_label_example =
    un_asm-skip_label two_skips no_symbols 0 1 skip_code later_skip (omega arith) refl
      skip_code-opcode refl later_skip-opcode
