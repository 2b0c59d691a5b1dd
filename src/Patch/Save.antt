-- ===== src/Patch/Save.antt =====
-- `emuPatch::Save`, chunk by chunk.
use emufxtool.Base.{ℕ, Bool, true, false, Option, List, [], ◌∷◌, length}
use emufxtool.Base.Text.{Text}
use emufxtool.Base.Table.{Table}
use emufxtool.Dsp.{Dsp}
use emufxtool.Archive.Stream.{Stream}
use emufxtool.Archive.State.{new_archive, Method, ok, err, pure, ◌>>◌}
use emufxtool.Archive.Output.{
  write_byte, write_short, write_long, write_string, new_stream, new_chunk, close_chunk,
  close_stream,
}
use emufxtool.Image.Data.{RegisterImage, Code, Control, Export, Image}
use emufxtool.Patch.Format.{
  ch_hdr, ch_init, ch_comment, ch_code, ch_controls, ch_symbols, ch_trams, ch_dsp, sub_magic,
  patch_title, compiled_for, notice,
}

unfoldable pub write_header : Text → Method (Unit {0})
write_header filename = do
  write_byte 1
  write_byte 0
  write_byte 0
  write_string patch_title
  write_string filename

unfoldable pub write_dsp : Dsp → Method (Unit {0})
write_dsp d = do
  write_long d.gpr_first
  write_long d.gpr_count
  write_long d.iline_first
  write_long d.iline_count
  write_long d.line_first
  write_long d.line_count
  write_long d.line_address_offset
  write_long d.code_size
  write_long d.shift_opcode
  write_long d.shift_r
  write_long d.shift_a
  write_long d.shift_x
  write_long d.shift_y
  write_long d.mask_opcode
  write_long d.mask_r
  write_long d.mask_a
  write_long d.mask_x
  write_long d.mask_y

unfoldable pub write_comments : Method (Unit {0})
write_comments = do write_string compiled_for; write_string notice; write_string []

unfoldable pub write_registers : Table ℕ RegisterImage → Method (Unit {0})
write_registers [] = pure tt
write_registers ((address, r) ∷ registers) = do
  write_short address
  write_long r.value
  write_long r.flags
  write_registers registers

unfoldable pub write_code : List Code → Method (Unit {0})
write_code [] = pure tt
write_code (i ∷ code) = do write_long i.lo; write_long i.hi; write_code code

unfoldable pub write_controls : List Control → Method (Unit {0})
write_controls [] = pure tt
write_controls (i ∷ controls) = do
  write_string i.name
  write_long i.flags
  write_short i.first_gpr
  write_short i.ngprs
  write_long i.range_min
  write_long i.range_max
  write_byte i.ttable
  write_byte i.index
  write_controls controls

unfoldable pub write_exports : List Export → Method (Unit {0})
write_exports [] = pure tt
write_exports (i ∷ exports) = do
  write_string i.symbol
  write_long i.flags
  write_short i.address
  write_short i.count
  write_exports exports

-- A chunk of records, after their count.
abbrev pub counted : ℕ → Method (Unit {0}) → Method (Unit {0})
counted n body = do write_short n; body

abbrev pub save_chunk : ℕ → Method (Unit {0}) → Method (Unit {0})
save_chunk id body = do new_chunk id; body; close_chunk

-- The body of the function behind `newStream`.
unfoldable pub save_chunks : Text → Image → Method (Unit {0})
save_chunks filename img = do
  save_chunk ch_hdr (write_header filename)
  save_chunk ch_dsp (write_dsp img.dsp)
  save_chunk ch_comment write_comments
  save_chunk ch_init (counted (length img.registers) (write_registers img.registers))
  save_chunk ch_code (counted (length img.code) (write_code img.code))
  save_chunk ch_controls (counted (length img.controls) (write_controls img.controls))
  save_chunk ch_trams (pure tt)
  save_chunk ch_symbols (counted (length img.exports) (write_exports img.exports))
  close_stream

unfoldable pub save_image : Text → Image → Method (Unit {0})
save_image filename img = do new_stream sub_magic; save_chunks filename img

-- `file` is what `fopen(filename, "wb")` gives. The result is that of the C function, and the file.
unfoldable pub save : Text → Image → Option Stream → Bool × Option Stream
save filename img file = elim (save_image filename img (new_archive file)) [
  | ok _ a ↦ (true, a.stream)
  | err _ a ↦ (false, a.stream)
]
