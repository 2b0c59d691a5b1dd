-- ===== src/Patch/Layout.antt =====
-- The layout of a patch file, byte by byte, as a function of the image: the description that
-- `Save` and `Load` are compared with.
use emufxtool.Base.{ℕ, ◌+◌, ◌≡◌, List, [], ◌∷◌, ◌++◌, length}
use mathlib.Core.List.{append_assoc}
use emufxtool.Base.Text.{Text}
use emufxtool.Base.Table.{Table}
use emufxtool.Words.{u8}
use emufxtool.Dsp.{Dsp}
use emufxtool.Archive.Stream.{Bytes}
use emufxtool.Archive.Output.{short_bytes, long_bytes, chnk_magic, eoc}
use emufxtool.Archive.Chunks.{chunk_bytes}
use emufxtool.Image.Data.{RegisterImage, Code, Control, Export, Image}
use emufxtool.Patch.Format.{
  ch_hdr, ch_init, ch_comment, ch_code, ch_controls, ch_symbols, ch_trams, ch_dsp, sub_magic,
  patch_title, compiled_for, notice,
}

abbrev pub byte_bytes : ℕ → Bytes
byte_bytes c = u8 c ∷ []

abbrev pub string_bytes : Text → Bytes
string_bytes s = long_bytes (length s + 1) ++ (s ++ 0 ∷ [])

unfoldable pub header_bytes : Text → Bytes
header_bytes filename =
    byte_bytes 1
    ++ (byte_bytes 0 ++ (byte_bytes 0 ++ (string_bytes patch_title ++ string_bytes filename)))

unfoldable pub dsp_bytes : Dsp → Bytes
dsp_bytes d =
    long_bytes d.gpr_first
    ++ (long_bytes d.gpr_count
        ++ (long_bytes d.iline_first
            ++ (long_bytes d.iline_count
                ++ (long_bytes d.line_first
                    ++ (long_bytes d.line_count
                        ++ (long_bytes d.line_address_offset
                            ++ (long_bytes d.code_size
                                ++ (long_bytes d.shift_opcode
                                    ++ (long_bytes d.shift_r
                                        ++ (long_bytes d.shift_a
                                            ++ (long_bytes d.shift_x
                                                ++ (long_bytes d.shift_y
                                                    ++ (long_bytes d.mask_opcode
                                                        ++ (long_bytes d.mask_r
                                                            ++ (long_bytes d.mask_a
                                                            ++ (long_bytes d.mask_x
                                                            ++ long_bytes d.mask_y))))))))))))))))

unfoldable pub comment_bytes : Bytes
comment_bytes = string_bytes compiled_for ++ (string_bytes notice ++ string_bytes [])

unfoldable pub register_bytes : Table ℕ RegisterImage → Bytes
register_bytes [] = []
register_bytes ((address, r) ∷ registers) =
    short_bytes address ++ (long_bytes r.value ++ (long_bytes r.flags ++ register_bytes registers))

unfoldable pub code_bytes : List Code → Bytes
code_bytes [] = []
code_bytes (i ∷ code) = long_bytes i.lo ++ (long_bytes i.hi ++ code_bytes code)

unfoldable pub control_bytes : List Control → Bytes
control_bytes [] = []
control_bytes (i ∷ controls) =
    string_bytes i.name
    ++ (long_bytes i.flags
        ++ (short_bytes i.first_gpr
            ++ (short_bytes i.ngprs
                ++ (long_bytes i.range_min
                    ++ (long_bytes i.range_max
                        ++ (byte_bytes i.ttable
                            ++ (byte_bytes i.index ++ control_bytes controls)))))))

unfoldable pub export_bytes : List Export → Bytes
export_bytes [] = []
export_bytes (i ∷ exports) =
    string_bytes i.symbol
    ++ (long_bytes i.flags
        ++ (short_bytes i.address ++ (short_bytes i.count ++ export_bytes exports)))

unfoldable pub magic_bytes : Bytes
magic_bytes = long_bytes chnk_magic ++ long_bytes sub_magic

-- The chunks of an image, and what follows them.
unfoldable pub chunks_before : Text → Image → Bytes → Bytes
chunks_before filename img rest =
    chunk_bytes ch_hdr (header_bytes filename)
    ++ (chunk_bytes ch_dsp (dsp_bytes img.dsp)
        ++ (chunk_bytes ch_comment comment_bytes
            ++ (chunk_bytes ch_init
                  (short_bytes (length img.registers) ++ register_bytes img.registers)
                ++ (chunk_bytes ch_code (short_bytes (length img.code) ++ code_bytes img.code)
                    ++ (chunk_bytes ch_controls
                          (short_bytes (length img.controls) ++ control_bytes img.controls)
                        ++ (chunk_bytes ch_trams []
                            ++ (chunk_bytes ch_symbols
                                  (short_bytes (length img.exports) ++ export_bytes img.exports)
                                ++ rest)))))))

pub chunks_before-append :
    (filename : Text) (img : Image) (ds es : Bytes)
    → chunks_before filename img (ds ++ es) ≡ chunks_before filename img ds ++ es
unfolding chunks_before
chunks_before-append filename img ds es = simp append_assoc

unfoldable pub file_bytes : Text → Image → Bytes
file_bytes filename img = magic_bytes ++ chunks_before filename img (chunk_bytes eoc [])
