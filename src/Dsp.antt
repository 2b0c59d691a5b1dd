-- ===== src/Dsp.antt =====
-- dsp.h, dsp.C: the geometry of the emu10k1's DSP memory, and the packing of an instruction into
-- two 32-bit words.
pub mod Packing
pub mod Tests
pub mod Laws
use Prim.Native.Nat.{bit_and, bit_or}
use emufxtool.Base.{ℕ, ◌+◌, ◌-◌, Bool, ◌&&◌, ltb, leb, ◌==◌, if◌then◌else◌}
use emufxtool.Words.{u8, u16, ◌<<<◌, ◌>>>◌, complement, add32}

pub record Dsp : Type 0 where
  pub card_id : ℕ
  pub gpr_first : ℕ
  pub gpr_count : ℕ
  pub line_first : ℕ
  pub line_count : ℕ
  pub tram_count : ℕ
  pub iline_first : ℕ
  pub iline_count : ℕ
  pub itram_count : ℕ
  pub line_address_offset : ℕ
  pub code_size : ℕ
  pub shift_opcode : ℕ
  pub shift_r : ℕ
  pub shift_a : ℕ
  pub shift_x : ℕ
  pub shift_y : ℕ
  pub mask_opcode : ℕ
  pub mask_r : ℕ
  pub mask_a : ℕ
  pub mask_x : ℕ
  pub mask_y : ℕ

abbrev pub init_defaults : Dsp
init_defaults = record {
  card_id = 1;
  gpr_first = 0x100;
  gpr_count = 0x100;
  iline_first = 0x200;
  iline_count = 0x80;
  itram_count = 0x100000;
  line_first = 0x280;
  line_count = 0x80;
  tram_count = 0x100000;
  line_address_offset = 0x100;
  code_size = 512;
  shift_opcode = 52;
  shift_r = 42;
  shift_a = 32;
  shift_x = 10;
  shift_y = 0;
  mask_opcode = 0x0f;
  mask_r = 0x3ff;
  mask_a = 0x3ff;
  mask_x = 0x3ff;
  mask_y = 0x3ff;
}

-- The two words of an instruction.
pub record Code64 : Type 0 where
  pub high : ℕ
  pub low : ℕ

-- The operation and the four operands of an instruction.
pub record Fields : Type 0 where
  pub opcode : ℕ
  pub r : ℕ
  pub a : ℕ
  pub x : ℕ
  pub y : ℕ

-- `EMU32BITS`
abbrev pub emu32_bits : ℕ
emu32_bits = 32

abbrev overlay : ℕ → ℕ → ℕ → ℕ
overlay word mask value = bit_or (bit_and word (complement mask)) value

unfoldable pub set64 : Code64 → ℕ → ℕ → ℕ → Code64
set64 w shift mask value =
    if leb emu32_bits shift
    then record {
      high = overlay w.high (mask <<< (shift - emu32_bits)) (value <<< (shift - emu32_bits));
      low = overlay w.low 0 0;
    }
    else record {
      high =
          overlay w.high (if shift == 0 then 0 else mask >>> (emu32_bits - shift))
            (if shift == 0 then 0 else value >>> (emu32_bits - shift));
      low = overlay w.low (mask <<< shift) (value <<< shift);
    }

unfoldable pub extract64 : Code64 → ℕ → ℕ → ℕ
extract64 w shift mask =
    if leb emu32_bits shift
    then bit_and (w.high >>> (shift - emu32_bits)) mask
    else bit_and
        (bit_or (w.low >>> shift) (if shift == 0 then 0 else w.high <<< (emu32_bits - shift))) mask

-- The results are stored through `emu8 *` and `emu16 *`.
unfoldable pub split_instr : Dsp → Code64 → Fields
unfolding extract64
split_instr d w = record {
  opcode = u8 (extract64 w d.shift_opcode d.mask_opcode);
  r = u16 (extract64 w d.shift_r d.mask_r);
  a = u16 (extract64 w d.shift_a d.mask_a);
  x = u16 (extract64 w d.shift_x d.mask_x);
  y = u16 (extract64 w d.shift_y d.mask_y);
}

unfoldable pub join_instr : Dsp → Fields → Code64
join_instr d f =
    let w0 : Code64 = record { high = 0; low = 0 } in
    let w1 = set64 w0 d.shift_opcode d.mask_opcode f.opcode in
    let w2 = set64 w1 d.shift_r d.mask_r f.r in
    let w3 = set64 w2 d.shift_a d.mask_a f.a in
    let w4 = set64 w3 d.shift_x d.mask_x f.x in set64 w4 d.shift_y d.mask_y f.y

unfoldable pub is_gpr : Dsp → ℕ → Bool
is_gpr d addr = leb d.gpr_first addr && ltb addr (add32 d.gpr_first d.gpr_count)

unfoldable pub is_line : Dsp → ℕ → Bool
is_line d addr = leb d.line_first addr && ltb addr (add32 d.line_first d.line_count)

-- The lower bound is that of the general purpose registers, as in the source.
unfoldable pub is_iline : Dsp → ℕ → Bool
is_iline d addr = leb d.gpr_first addr && ltb addr (add32 d.iline_first d.iline_count)

unfoldable pub is_valid_addr : Dsp → ℕ → Bool
is_valid_addr d addr = ltb addr d.code_size

unfoldable pub get_first_line_address : Dsp → ℕ
get_first_line_address d = add32 d.line_first d.line_address_offset

unfoldable pub get_first_iline_address : Dsp → ℕ
get_first_iline_address d = d.iline_first
