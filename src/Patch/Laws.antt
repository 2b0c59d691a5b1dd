-- ===== src/Patch/Laws.antt =====
-- A saved patch is loaded again.
use emufxtool.Base.{
  ℕ, suc, ◌-◌, ◌^◌, ◌≤◌, ◌<◌, ◌≡◌, refl, ap, true, none, some, [], ◌∷◌, ◌++◌, length, arith,
  length-append,
}
use mathlib.Core.List.{append_assoc}
use emufxtool.Base.Text.{Text}
use emufxtool.Archive.Stream.{Bytes, Stream, seek}
use emufxtool.Archive.State.{Archive, new_archive, ok, ◌>>=◌}
use emufxtool.Archive.Output.{short_bytes, long_bytes, chnk_magic, eoc}
use emufxtool.Archive.Input.{validate_stream}
use emufxtool.Archive.InputLaws.{input, read_long-Parses}
use emufxtool.Archive.Chunks.{chunk_bytes}
use emufxtool.Archive.Contents.{Reads}
use emufxtool.Image.Data.{Image}
use emufxtool.Patch.Format.{
  compiled_for, notice, sub_magic, ch_hdr, ch_dsp, ch_comment, ch_init, ch_code, ch_controls,
  ch_trams, ch_symbols,
}
use emufxtool.Patch.Layout.{
  file_bytes, magic_bytes, chunks_before, chunks_before-append, header_bytes, dsp_bytes,
  register_bytes, code_bytes, control_bytes, export_bytes,
}
use emufxtool.Patch.Save.{save}
use emufxtool.Patch.Written.{empty_file, save-file_bytes}
use emufxtool.Patch.Load.{Loading, load_chunk, load_chunks, loaded, load}
use emufxtool.Patch.Storable.{IsStorable}
use emufxtool.Patch.Records.{
  stored, Precedes-first, read_registers-Parses, read_code-Parses, read_controls-Parses,
  read_exports-Parses,
}
use emufxtool.Patch.Restored.{
  load_chunks-step, load_chunks-eoc, whole-Reads, unread-Reads, skipped-Reads, counted-Reads,
  read_comments-Parses,
}

-- What `Load` makes of a saved image: the registers under their addresses, the code, the controls
-- and the exports; the rest is as it was.
abbrev pub restored : Image → Image → Image
restored img old = record old {
  registers = stored img.registers;
  code = img.code;
  controls = img.controls;
  exports = img.exports;
}

abbrev pub restored_loading : Image → Image → Loading
restored_loading img old = record { image = restored img old; printed = compiled_for ∷ notice ∷ [] }

-- Nine chunks, and more.
abbrev rounds : ℕ → ℕ
rounds n = suc (suc (suc (suc (suc (suc (suc (suc (suc n))))))))

chunks-Reads :
    (fuel : ℕ) (filename : Text) (img old : Image)
    → IsStorable img
    → Reads
        (load_chunks (rounds fuel) (record { image = old; printed = [] }))
        (chunks_before filename img (short_bytes eoc))
        (some (restored_loading img old))
unfolding load_chunk chunks_before
chunks-Reads fuel filename img old s =
    let start : Loading = record { image = old; printed = [] } in
    let noted : Loading = record start { printed = compiled_for ∷ notice ∷ [] } in
    let filled : Loading = record noted {
      image = record old { registers = stored img.registers };
    } in
    let coded : Loading = record filled { image = record filled.image { code = img.code } } in
    let controlled : Loading = record coded {
      image = record coded.image { controls = img.controls };
    } in
    let exported : Loading = record controlled {
      image = record controlled.image { exports = img.exports };
    } in
    load_chunks-step _ ch_hdr start start _ (omega arith) refl
      (unread-Reads (λ _. some start) (header_bytes filename))
      (load_chunks-step _ ch_dsp start start _ (omega arith) refl
        (skipped-Reads _ (dsp_bytes img.dsp))
        (load_chunks-step _ ch_comment start noted _ (omega arith) refl
          (whole-Reads _ _ _ (read_comments-Parses _ []))
          (load_chunks-step _ ch_init noted filled
            (short_bytes (length img.registers) ++ register_bytes img.registers) (omega arith) refl
            (counted-Reads _ _ _ _ s.register_count (
              read_registers-Parses img.registers [] s.registers s.registers_sorted
                (Precedes-first img.registers)))
            (load_chunks-step _ ch_code filled coded
              (short_bytes (length img.code) ++ code_bytes img.code) (omega arith) refl
              (counted-Reads _ _ _ _ s.code_count (read_code-Parses img.code [] 0 s.code))
              (load_chunks-step _ ch_controls coded controlled
                (short_bytes (length img.controls) ++ control_bytes img.controls) (omega arith) refl
                (counted-Reads _ _ _ _ s.control_count
                  (read_controls-Parses img.controls [] s.controls))
                (load_chunks-step _ ch_trams controlled controlled [] (omega arith) refl
                  (skipped-Reads _ [])
                  (load_chunks-step _ ch_symbols controlled exported
                    (short_bytes (length img.exports) ++ export_bytes img.exports) (omega arith)
                    refl
                    (counted-Reads _ _ _ _ s.export_count
                      (read_exports-Parses img.exports [] s.exports))
                    (load_chunks-eoc _ exported))))))))

validate_stream-input :
    (a : Archive) (rest : Bytes)
    → validate_stream sub_magic (input a [] (magic_bytes ++ rest))
      ≡ ok true (input a magic_bytes rest)
unfolding validate_stream magic_bytes seek
validate_stream-input a rest = rw (
  append_assoc (long_bytes chnk_magic) (long_bytes sub_magic) rest,
  (read_long-Parses chnk_magic (omega arith)).at a [] (long_bytes sub_magic ++ rest),
  ◌>>=◌,
  (read_long-Parses sub_magic (omega arith)).at a (long_bytes chnk_magic) rest,
)

load-file_bytes :
    (fuel : ℕ) (filename : Text) (img old : Image)
    → IsStorable img
    → length (file_bytes filename img) < 2 ^ 31
    → (a : Archive) × (load
          (rounds fuel)
          old
          (input (new_archive none) [] (file_bytes filename img))
        ≡ ok (loaded (restored_loading img old)) a)
unfolding load file_bytes
load-file_bytes fuel filename img old s h =
    let rest = chunks_before filename img (chunk_bytes eoc []) in
    let valid = validate_stream-input (new_archive none) rest in
    let before = chunks_before filename img (short_bytes eoc) in
    let split : rest ≡ before ++ long_bytes 0 =
      chunks_before-append filename img (short_bytes eoc) (long_bytes 0) in
    let (a, done) =
      (chunks-Reads fuel filename img old s).at (new_archive none) magic_bytes (long_bytes 0) (
        omega (
          arith,
          h,
          length-append magic_bytes rest,
          length-append magic_bytes before,
          length-append before (long_bytes 0),
          ap length split,
        )) in
    (input a (magic_bytes ++ before) (long_bytes 0), rw (valid, ◌>>=◌, split, done))

-- An image that the fields of the file hold, with the registers in the order of their addresses
-- and the instructions numbered from 0, and whose file stays below 2 ^ 31 bytes: `save` writes it,
-- and `load`, with nine or more rounds of fuel, on what is written, returns with the registers,
-- the instructions, the controls and the exports of the image in the place of those of `old` and
-- the rest of `old` unchanged, and has printed the two comments.
pub load-save :
    (fuel : ℕ) (filename : Text) (img old : Image)
    → IsStorable img
    → length (file_bytes filename img) < 2 ^ 31
    → 9 ≤ fuel
    → (s : Stream) × (save filename img (some empty_file) ≡ (true, some s))
      × (a : Archive) × (load fuel old (new_archive (some (record s { pos = 0 })))
          ≡ ok (loaded (restored_loading img old)) a)
load-save fuel filename img old storable h enough =
    let bytes = file_bytes filename img in
    let (a, done) = load-file_bytes (fuel - 9) filename img old storable h in
    let rounds_fuel : rounds (fuel - 9) ≡ fuel = omega (arith, enough) in
    (
      record { bytes = bytes; pos = length bytes },
      (save-file_bytes filename img h).0,
      a,
      rw rounds_fuel at done,
    )
