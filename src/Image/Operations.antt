-- ===== src/Image/Operations.antt =====
-- The methods of `emuCode` and `emuImage` that build an image.
use Prim.Native.Nat.{bit_or}
use emufxtool.Base.{ℕ, suc, ◌+◌, ◌-◌, none, some, List, [], ◌∷◌, ◌++◌, ◌==◌, length, if◌then◌else◌}
use emufxtool.Base.Table.{Table, nat_key, lookup, insert}
use emufxtool.Words.{u16, add32}
use emufxtool.Flags.{v_read, v_write}
use emufxtool.Dsp.{Dsp, Fields, init_defaults, split_instr, join_instr}
use emufxtool.Archive.Stream.{Bytes}
use emufxtool.Image.Data.{RegisterImage, TramImage, tram_image, Code, new_control_of, Export, Image}
use emufxtool.Image.Registers.{relocate, first_free}

-- The hardware constants, by value.
abbrev pub hardware_constants : Table ℕ ℕ
hardware_constants = insert 0x00100000 0x055 (
    insert 0x5a7ef9db 0x054 (
      insert 0x4f1bbcdc 0x053 (
        insert 0xc0000000 0x052 (
          insert 0xfffffffe 0x051 (
            insert 0xffffffff 0x050 (
              insert 0x7fffffff 0x04f (
                insert 0x80000000 0x04e (
                  insert 0x40000000 0x04d (
                    insert 0x20000000 0x04c (
                      insert 0x10000000 0x04b (
                        insert 0x80000 0x04a (
                          insert 0x10000 0x049 (
                            insert 0x100 0x048 (
                              insert 0x20 0x047 (
                                insert 0x10 0x046 (
                                  insert 0x8 0x045 (
                                    insert 4 0x044 (
                                      insert 3 0x043 (
                                        insert 2 0x042
                                          (insert 1 0x041 (insert 0 0x040 [])))))))))))))))))))))

-- `emuImage::emuImage`
abbrev pub new_image : Image
new_image = record {
  current_gpr = init_defaults.gpr_first;
  current_line = init_defaults.line_first;
  current_tram = 0;
  current_tram_size = 0;
  dsp = init_defaults;
  registers = [];
  constants = hardware_constants;
  trams = [];
  code = [];
  controls = [];
  exports = [];
}

-- The register is stored under the address that is found; its own `address` field has 16 bits.
unfoldable pub new_register : Image → ℕ → ℕ → ℕ → ℕ × Image
new_register img base_addr value flags =
    let addr = first_free (suc (length img.registers)) img.registers base_addr in
    let reg : RegisterImage = record { address = u16 addr; value = value; flags = flags } in
    (addr, record img { registers = insert addr reg img.registers })

unfoldable pub new_variable : Image → ℕ → ℕ → ℕ × Image
new_variable img value flags =
    let (c, img') = new_register img img.current_gpr value (bit_or flags (bit_or v_read v_write)) in
    (c, record img' { current_gpr = c + 1 })

unfoldable pub new_line : Image → ℕ → ℕ → ℕ × Image
new_line img offset flags =
    let fl = bit_or flags (bit_or v_read v_write) in
    let (c, img') = new_register img img.current_line 0 fl in
    let reg : RegisterImage = record { address = 0; value = offset; flags = fl } in
    (c, record img' { registers = insert (c + 0x100) reg img'.registers; current_line = c + 1 })

-- The arguments stand as the source has them.
unfoldable pub new_tram : Image → ℕ → ℕ → ℕ × Image
new_tram img size flags = (
  img.current_tram,
  record img {
    trams = img.trams ++ tram_image img.current_tram_size size flags ∷ [];
    current_tram_size = add32 img.current_tram_size size;
    current_tram = img.current_tram + 1;
  },
)

unfoldable pub sum_sizes : ℕ → List TramImage → ℕ
sum_sizes tram_size [] = tram_size
sum_sizes tram_size (i ∷ trams) = sum_sizes (add32 tram_size i.size) trams

unfoldable pub get_tram_size : Image → ℕ
unfolding sum_sizes
get_tram_size img = sum_sizes 0 img.trams

-- The first constant that is mapped to an address.
unfoldable pub constant_at : ℕ → Table ℕ ℕ → ℕ
constant_at addr [] = 0
constant_at addr ((value, reg) ∷ constants) =
    if addr == reg then value else constant_at addr constants

-- The parameter, an `emu16`, is a number below 2 ^ 16.
unfoldable pub get_value : Image → ℕ → ℕ
get_value img addr = elim (lookup addr img.registers) [
  | some r ↦ r.value
  | none ↦ constant_at addr img.constants
]

unfoldable pub map_constant : Image → ℕ → ℕ × Image
map_constant img constant = elim (lookup constant img.constants) [
  | some addr ↦ (addr, img)
  | none ↦
      let (c, img') = new_register img img.current_gpr constant v_read in
      (c, record img' { constants = insert constant (u16 c) img'.constants; current_gpr = c + 1 })
]

-- `emuCode::emuCode`, `emuCode::join` and `emuCode::split`
unfoldable pub new_code : ℕ → Fields → Dsp → Code
new_code pc f d = let w = join_instr d f in record { hi = w.high; lo = w.low; pc = pc }

unfoldable pub split_code : Code → Dsp → Fields
split_code c d = split_instr d (record { high = c.hi; low = c.lo })

-- `emuCode::relocate`
unfoldable pub relocate_code : Table ℕ ℕ → Dsp → Code → Code
unfolding split_code
relocate_code m d c =
    let f = split_code c d in
    let w = join_instr d (record f {
      r = relocate m f.r;
      a = relocate m f.a;
      x = relocate m f.x;
      y = relocate m f.y;
    }) in
    record c { hi = w.high; lo = w.low }

unfoldable pub new_instruction : Image → Fields → ℕ × Image
unfolding new_code
new_instruction img f =
    let code = img.code ++ new_code (u16 (length img.code)) f img.dsp ∷ [] in
    (length code - 1, record img { code = code })

unfoldable pub new_control : Image → Bytes → ℕ → ℕ → ℕ → ℕ → ℕ → ℕ → ℕ × Image
new_control img name fl gpr count min max ttable =
    let controls = img.controls ++ new_control_of name fl gpr count min max ttable 0 ∷ [] in
    (length controls - 1, record img { controls = controls })

unfoldable pub new_export : Image → Bytes → ℕ → ℕ → ℕ → ℕ × Image
new_export img symbol fl addr count =
    let e : Export = record { symbol = symbol; flags = fl; address = addr; count = count } in
    let exports = img.exports ++ e ∷ [] in (length exports - 1, record img { exports = exports })

unfoldable pub clear : Image → Image
clear img = record img {
  registers = [];
  constants = [];
  trams = [];
  code = [];
  controls = [];
  exports = [];
}
