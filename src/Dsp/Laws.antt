-- ===== src/Dsp/Laws.antt =====
-- What emuDSP promises to its clients: packing loses nothing, and the address tests.
use emufxtool.Base.{not, true, ◌↔◌, ◌≤◌, ◌+◌, ℕ, ◌^◌, ◌<◌, ◌≡◌, arith, false, ◌&&◌}
use emufxtool.Dsp.{
  Dsp, Code64, init_defaults, Fields, split_instr, join_instr, is_gpr, is_line, is_iline,
}
use emufxtool.Dsp.Packing.{InRange, packed, join_instr-packed, split_instr_lem}

-- Under the default geometry, an operation below 16 and four operands below 1024 come back
-- unchanged when they are packed into two words and unpacked.
pub split_instr-join_instr :
    (f : Fields) → InRange f → split_instr init_defaults (join_instr init_defaults f) ≡ f
split_instr-join_instr f h = ground (arith, join_instr-packed f h, split_instr_lem (packed f))

-- Under the default geometry, a high word of 24 bits and a low word of 20 bits come back
-- unchanged when they are unpacked and packed again.
pub join_instr-split_instr :
    (w : Code64)
    → w.high < 2 ^ 24
    → w.low < 2 ^ 20
    → join_instr init_defaults (split_instr init_defaults w) ≡ w
join_instr-split_instr w hh hl =
    ground (arith, split_instr_lem w, join_instr-packed (split_instr init_defaults w))

-- Under a geometry whose general purpose registers end below its external lines, which end below
-- 2 ^ 32: an address is a general purpose register, or an external line, exactly if it lies from
-- the first of them up to the last, and it is not both. Where the internal lines end in a word and
-- not below the general purpose registers, `is_iline` accepts every general purpose register.
pub address_classes :
    (d : Dsp) (addr : ℕ)
    → d.gpr_first + d.gpr_count ≤ d.line_first
    → d.line_first + d.line_count < 2 ^ 32
    → d.iline_first + d.iline_count < 2 ^ 32
    → d.gpr_first + d.gpr_count ≤ d.iline_first + d.iline_count
    → ((is_gpr d addr ≡ true) ↔ ((d.gpr_first ≤ addr) × (addr < d.gpr_first + d.gpr_count)))
      × ((is_line d addr ≡ true) ↔ ((d.line_first ≤ addr) × (addr < d.line_first + d.line_count)))
      × ((is_gpr d addr && is_line d addr) ≡ false)
      × ((is_gpr d addr && not (is_iline d addr)) ≡ false)
unfolding is_gpr is_line is_iline
address_classes d addr below small small' above = (
  (λ h. (ground (arith, h), ground (arith, h)), λ h. ground (arith, h.0, h.1)),
  (λ h. (ground (arith, h), ground (arith, h)), λ h. ground (arith, h.0, h.1)),
  ground arith,
  ground arith,
)
