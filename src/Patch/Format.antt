-- ===== src/Patch/Format.antt =====
-- The numbers of the chunks, and the fixed texts of a patch file.
use emufxtool.Base.{ℕ}
use emufxtool.Base.Text.{Text, codes}

abbrev pub ch_hdr : ℕ
ch_hdr = 1

abbrev pub ch_init : ℕ
ch_init = 2

abbrev pub ch_comment : ℕ
ch_comment = 3

abbrev pub ch_code : ℕ
ch_code = 4

abbrev pub ch_controls : ℕ
ch_controls = 5

abbrev pub ch_symbols : ℕ
ch_symbols = 6

abbrev pub ch_trams : ℕ
ch_trams = 7

abbrev pub ch_dsp : ℕ
ch_dsp = 8

abbrev pub sub_magic : ℕ
sub_magic = 0x31306b31

abbrev pub patch_title : Text
patch_title = codes "This should be the name of the patch"

abbrev pub compiled_for : Text
compiled_for = codes "Compiled for emufxtool by Nicola Orru' (nigu@itadinanta.it)"

abbrev pub notice : Text
notice =
    codes
      "Development version. Not yet suitable for production use, format may change in the future"
