-- ===== src/Dsp/Tests.antt =====
-- Runs of dsp.C.
use emufxtool.Base.{not, ◌↔◌, ◌≤◌, ◌<◌, ◌≡◌, refl, arith, true, false, ◌&&◌}
use emufxtool.Dsp.{
  Code64, Fields, init_defaults, set64, split_instr, join_instr, is_gpr, is_line, is_iline,
}
use emufxtool.Dsp.Laws.{split_instr-join_instr, join_instr-split_instr, address_classes}

abbrev pub multiply_add : Fields
multiply_add = record { opcode = 0x4; r = 0x150; a = 0x40; x = 0x151; y = 0x3ff }

abbrev two_words : Code64
two_words = record { high = 0x454040; low = 0x547ff }

join_instr-multiply_add : join_instr init_defaults multiply_add ≡ two_words
unfolding join_instr set64
join_instr-multiply_add = refl

split_instr-join_instr_example :
    split_instr init_defaults (join_instr init_defaults multiply_add) ≡ multiply_add
split_instr-join_instr_example =
    split_instr-join_instr multiply_add
      (omega arith, omega arith, omega arith, omega arith, omega arith)

join_instr-split_instr_example :
    join_instr init_defaults (split_instr init_defaults two_words) ≡ two_words
join_instr-split_instr_example = join_instr-split_instr two_words (omega arith) (omega arith)

address_classes_example :
    ((is_gpr init_defaults 0x150 ≡ true) ↔ ((0x100 ≤ 0x150) × (0x150 < 0x200)))
    × ((is_line init_defaults 0x150 ≡ true) ↔ ((0x280 ≤ 0x150) × (0x150 < 0x300)))
    × ((is_gpr init_defaults 0x150 && is_line init_defaults 0x150) ≡ false)
    × ((is_gpr init_defaults 0x150 && not (is_iline init_defaults 0x150)) ≡ false)
address_classes_example =
    address_classes init_defaults 0x150 (omega arith) (omega arith) (omega arith) (omega arith)

-- A general purpose register passes for an internal line.
is_iline_gpr : is_iline init_defaults 0x150 ≡ true
unfolding is_iline
is_iline_gpr = refl
