-- ===== src/Dsp/Packing.antt =====
-- Packing and unpacking of instructions under the default geometry.
use Prim.Native.Nat.{bit_and, bit_or}
use emufxtool.Base.{ℕ, ◌+◌, ◌*◌, ◌/◌, ◌%◌, ◌^◌, ◌<◌, ◌≡◌, ◌∙◌, arith}
use emufxtool.Words.{max_u32}
use emufxtool.Words.Bits.{field_write, and_mask, or_split, zero-or, or-zero, and_ones}
use emufxtool.Dsp.{Code64, Fields, init_defaults, set64, split_instr, join_instr}

-- Operation and operands that fit the masks of the default geometry.
abbrev pub InRange : Fields → Type 0
InRange f = (f.opcode < 16) × (f.r < 1024) × (f.a < 1024) × (f.x < 1024) × (f.y < 1024)

abbrev pub packed : Fields → Code64
packed f = record { high = (f.opcode * 1024 + f.r) * 1024 + f.a; low = f.x * 1024 + f.y }

-- What is written over no bits stays.
overlay_none : (h : ℕ) → h < 2 ^ 32 → bit_or (bit_and h max_u32) 0 ≡ h
overlay_none h small = or-zero (bit_and h max_u32) ∙ and_ones 32 h small

set_opcode :
    (v : ℕ)
    → v < 16
    → set64 (record { high = 0; low = 0 }) 52 0x0f v ≡ record { high = v * 2 ^ 20; low = 0 }
unfolding set64
set_opcode v hv = ground (arith, field_write 20 4 8 0 0 0 v)

set_r :
    (q v : ℕ)
    → q < 16
    → v < 1024
    → set64 (record { high = q * 2 ^ 20; low = 0 }) 42 0x3ff v
      ≡ record { high = (q * 1024 + v) * 2 ^ 10; low = 0 }
unfolding set64
set_r q v hq hv = ground (arith, field_write 10 10 12 q 0 0 v)

set_a :
    (q v : ℕ)
    → q < 2 ^ 14
    → v < 1024
    → set64 (record { high = q * 2 ^ 10; low = 0 }) 32 0x3ff v
      ≡ record { high = q * 1024 + v; low = 0 }
unfolding set64
set_a q v hq hv = ground (arith, field_write 0 10 22 q 0 0 v)

set_x :
    (h v : ℕ)
    → h < 2 ^ 24
    → v < 1024
    → set64 (record { high = h; low = 0 }) 10 0x3ff v ≡ record { high = h; low = v * 2 ^ 10 }
unfolding set64
set_x h v hh hv = ground (arith, field_write 10 10 12 0 0 0 v, overlay_none h)

set_y :
    (h q v : ℕ)
    → h < 2 ^ 24
    → q < 1024
    → v < 1024
    → set64 (record { high = h; low = q * 2 ^ 10 }) 0 0x3ff v
      ≡ record { high = h; low = q * 1024 + v }
unfolding set64
set_y h q v hh hq hv = ground (arith, field_write 0 10 22 q 0 0 v, overlay_none h)

pub join_instr-packed : (f : Fields) → InRange f → join_instr init_defaults f ≡ packed f
join_instr-packed f h =
    unfold join_instr in
    rw (
      set_opcode f.opcode h.0,
      set_r f.opcode f.r h.0 h.1,
      set_a (f.opcode * 1024 + f.r) f.a (omega arith) h.2,
      set_x ((f.opcode * 1024 + f.r) * 1024 + f.a) f.x (omega arith) h.3,
      set_y ((f.opcode * 1024 + f.r) * 1024 + f.a) f.x f.y (omega arith) h.3 h.4,
    )

-- Where the two words are split.
pub split_instr_lem :
    (w : Code64)
    → w.high < 2 ^ 32
    → w.low < 2 ^ 32
    → split_instr init_defaults w ≡ record {
      opcode = w.high / 2 ^ 20 % 16;
      r = w.high / 2 ^ 10 % 1024;
      a = w.high % 1024;
      x = w.low / 2 ^ 10 % 1024;
      y = w.low % 1024;
    }
unfolding split_instr
split_instr_lem w hh hl = ground (
  arith,
  and_mask 4 (w.high / 2 ^ 20),
  and_mask 10 (w.high / 2 ^ 10),
  and_mask 10 w.high,
  and_mask 10 (w.low / 2 ^ 10 + w.high % 2 ^ 10 * 2 ^ 22),
  and_mask 10 w.low,
  or_split 22 0 (w.high % 2 ^ 10) (w.low / 2 ^ 10) 0,
  zero-or (w.high % 2 ^ 10),
  or-zero (w.low / 2 ^ 10),
  or-zero w.low,
)
