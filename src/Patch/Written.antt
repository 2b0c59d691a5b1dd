-- ===== src/Patch/Written.antt =====
-- `Save` writes the layout.
use emufxtool.Base.{
  ℕ, ◌^◌, ◌<◌, ◌≡◌, refl, ◌∙◌, false, true, none, some, List, [], ◌∷◌, ◌++◌, length,
}
use emufxtool.Base.Text.{Text}
use emufxtool.Base.Table.{Table}
use emufxtool.Dsp.{Dsp}
use emufxtool.Archive.Stream.{Bytes, Stream}
use emufxtool.Archive.State.{Archive, new_archive, Method, ok, pure, ◌>>=◌, ◌>>◌, >>=-ok}
use emufxtool.Archive.Output.{
  write_short, new_stream, close_stream, short_bytes, long_bytes, chnk_magic, eoc,
}
use emufxtool.Archive.OutputLaws.{
  output, Emits, Emits-pure, Emits-then, write_byte-Emits, write_short-Emits, write_long-Emits,
  write_string-Emits,
}
use emufxtool.Archive.Chunks.{chunk_bytes, Writes, Writes-then, chunk-Writes}
use emufxtool.Image.Data.{RegisterImage, Code, Control, Export, Image}
use emufxtool.Patch.Format.{
  ch_hdr, ch_init, ch_comment, ch_code, ch_controls, ch_symbols, ch_trams, ch_dsp, sub_magic,
}
use emufxtool.Patch.Layout.{
  header_bytes, dsp_bytes, comment_bytes, register_bytes, code_bytes, control_bytes, export_bytes,
  magic_bytes, chunks_before, file_bytes,
}
use emufxtool.Patch.Save.{
  write_header, write_dsp, write_comments, write_registers, write_code, write_controls,
  write_exports, save_chunks, save_image, save,
}

ruleset emits = (
  Emits-pure, Emits-then, write_byte-Emits, write_short-Emits, write_long-Emits, write_string-Emits,
)

write_header-Emits : (filename : Text) → Emits (write_header filename) (header_bytes filename)
unfolding write_header header_bytes
write_header-Emits filename = search emits

write_dsp-Emits : (d : Dsp) → Emits (write_dsp d) (dsp_bytes d)
unfolding write_dsp dsp_bytes
write_dsp-Emits d = search emits depth 20

write_comments-Emits : Emits write_comments comment_bytes
unfolding write_comments comment_bytes
write_comments-Emits = search emits

write_registers-Emits : (t : Table ℕ RegisterImage) → Emits (write_registers t) (register_bytes t)
unfolding write_registers register_bytes
write_registers-Emits [] = Emits-pure
write_registers-Emits ((address, r) ∷ t) = Emits-then (write_short-Emits address) (
    Emits-then (write_long-Emits r.value)
      (Emits-then (write_long-Emits r.flags) (write_registers-Emits t)))

write_code-Emits : (code : List Code) → Emits (write_code code) (code_bytes code)
unfolding write_code code_bytes
write_code-Emits [] = Emits-pure
write_code-Emits (i ∷ code) =
    Emits-then (write_long-Emits i.lo) (Emits-then (write_long-Emits i.hi) (write_code-Emits code))

write_controls-Emits :
    (controls : List Control) → Emits (write_controls controls) (control_bytes controls)
unfolding write_controls control_bytes
write_controls-Emits [] = Emits-pure
write_controls-Emits (i ∷ controls) = Emits-then (write_string-Emits i.name) (
    Emits-then (write_long-Emits i.flags) (
      Emits-then (write_short-Emits i.first_gpr) (
        Emits-then (write_short-Emits i.ngprs) (
          Emits-then (write_long-Emits i.range_min) (
            Emits-then (write_long-Emits i.range_max) (
              Emits-then (write_byte-Emits i.ttable)
                (Emits-then (write_byte-Emits i.index) (write_controls-Emits controls))))))))

write_exports-Emits : (exports : List Export) → Emits (write_exports exports) (export_bytes exports)
unfolding write_exports export_bytes
write_exports-Emits [] = Emits-pure
write_exports-Emits (i ∷ exports) = Emits-then (write_string-Emits i.symbol) (
    Emits-then (write_long-Emits i.flags) (
      Emits-then (write_short-Emits i.address)
        (Emits-then (write_short-Emits i.count) (write_exports-Emits exports))))

counted-Emits :
    (n : ℕ) {body : Method (Unit {0})} {ds : Bytes}
    → Emits body ds
    → Emits (write_short n >> body) (short_bytes n ++ ds)
counted-Emits n emits = Emits-then (write_short-Emits n) emits

close_stream-Writes : Writes close_stream (chunk_bytes eoc [])
unfolding close_stream
close_stream-Writes = chunk-Writes eoc (pure tt) Emits-pure

-- The chunks of an image, up to the end of the stream.
chunks-Writes :
    (filename : Text) (img : Image)
    → Writes (save_chunks filename img) (chunks_before filename img (chunk_bytes eoc []))
unfolding save_chunks chunks_before
chunks-Writes filename img = Writes-then (chunk-Writes ch_hdr _ (write_header-Emits filename)) (
    Writes-then (chunk-Writes ch_dsp _ (write_dsp-Emits img.dsp)) (
      Writes-then (chunk-Writes ch_comment _ write_comments-Emits) (
        Writes-then (chunk-Writes ch_init _ (counted-Emits _ (write_registers-Emits img.registers)))
          (Writes-then (chunk-Writes ch_code _ (counted-Emits _ (write_code-Emits img.code))) (
            Writes-then
              (chunk-Writes ch_controls _ (counted-Emits _ (write_controls-Emits img.controls)))
              (Writes-then (chunk-Writes ch_trams _ Emits-pure) (
                Writes-then
                  (chunk-Writes ch_symbols _ (counted-Emits _ (write_exports-Emits img.exports)))
                  close_stream-Writes)))))))

-- What `fopen(filename, "wb")` gives when it succeeds.
abbrev pub empty_file : Stream
empty_file = record { bytes = []; pos = 0 }

new_stream-output :
    (a : Archive)
    → a.tag_bit ≡ false
    → new_stream sub_magic (output a []) ≡ ok tt (output a magic_bytes)
unfolding new_stream magic_bytes
new_stream-output a tag = rw (
  (write_long-Emits chnk_magic).at a [] tag,
  ◌>>=◌,
  (write_long-Emits sub_magic).at a (long_bytes chnk_magic) tag,
)

save_image-output :
    (filename : Text) (img : Image)
    → length (file_bytes filename img) < 2 ^ 31
    → (b : Archive) × (save_image filename img (new_archive (some empty_file))
        ≡ ok tt (output b (file_bytes filename img)))
unfolding save_image file_bytes
save_image-output filename img h =
    let a = new_archive (some empty_file) in
    let (b, tag, bit, done) = (chunks-Writes filename img).at a magic_bytes refl refl h in
    (
      b,
      >>=-ok (new_stream sub_magic) (λ _. save_chunks filename img) (new_stream-output a refl)
          ∙ done,
    )

-- Into a file that could be opened, and while it stays below 2 ^ 31 bytes, `save` writes exactly
-- the layout of the image and returns true; without a file it returns false.
pub save-file_bytes :
    (filename : Text) (img : Image)
    → length (file_bytes filename img) < 2 ^ 31
    → (save filename img (some empty_file) ≡ (
      true,
      some (record { bytes = file_bytes filename img; pos = length (file_bytes filename img) }),
    ))
      × (save filename img none ≡ (false, none))
unfolding save
save-file_bytes filename img h =
    let (b, done) = save_image-output filename img h in
    (rw (done, save), unfold save_image new_stream in refl)
