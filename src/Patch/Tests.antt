-- ===== src/Patch/Tests.antt =====
-- A small patch that is saved and loaded.
use emufxtool.Base.{◌^◌, ◌<◌, ◌≡◌, refl, true, false, none, some, [], ◌∷◌, arith, length}
use emufxtool.Base.Text.{Text, codes, is_c_string-IsCString}
use emufxtool.Archive.Stream.{Stream}
use emufxtool.Archive.State.{Archive, new_archive, ok}
use emufxtool.Image.Data.{Image}
use emufxtool.Image.Operations.{new_image}
use emufxtool.Patch.Layout.{
  file_bytes, magic_bytes, chunks_before, header_bytes, dsp_bytes, comment_bytes, register_bytes,
  code_bytes, control_bytes, export_bytes,
}
use emufxtool.Patch.Save.{save}
use emufxtool.Patch.Written.{empty_file, save-file_bytes}
use emufxtool.Patch.Load.{load, loaded}
use emufxtool.Patch.Storable.{IsStorable}
use emufxtool.Patch.Laws.{restored_loading, load-save}

abbrev filename : Text
filename = codes "a.fx"

abbrev small : Image
small = record new_image {
  registers = (0x100, record { address = 0x100; value = 5; flags = 0 }) ∷ [];
  code = record { hi = 1; lo = 2; pc = 0 } ∷ [];
  exports = record { symbol = codes "vol"; flags = 3; address = 0x100; count = 1 } ∷ [];
}

small-IsStorable : IsStorable small
small-IsStorable = record {
  register_count = omega arith;
  registers_sorted = (tt, tt);
  registers = (omega arith, omega arith, omega arith, tt);
  code_count = omega arith;
  code = (refl, omega arith, omega arith, tt);
  control_count = omega arith;
  controls = tt;
  export_count = omega arith;
  exports = (
    (is_c_string-IsCString (codes "vol") refl, omega arith),
    omega arith,
    omega arith,
    omega arith,
    tt,
  );
}

file_bytes-small : length (file_bytes filename small) < 2 ^ 31
unfolding file_bytes magic_bytes chunks_before header_bytes dsp_bytes comment_bytes register_bytes
    code_bytes control_bytes export_bytes
file_bytes-small = omega arith

save-file_bytes_example :
    (save filename small (some empty_file) ≡ (
      true,
      some (record { bytes = file_bytes filename small; pos = length (file_bytes filename small) }),
    ))
    × (save filename small none ≡ (false, none))
save-file_bytes_example = save-file_bytes filename small file_bytes-small

load-save_example :
    (s : Stream) × (save filename small (some empty_file) ≡ (true, some s))
    × (a : Archive) × (load 9 new_image (new_archive (some (record s { pos = 0 })))
        ≡ ok (loaded (restored_loading small new_image)) a)
load-save_example =
    load-save 9 filename small new_image small-IsStorable file_bytes-small (omega arith)
