-- ===== src/Archive/Tests.antt =====
-- Runs of chunkfile.C.
use emufxtool.Base.{◌≡◌, none, [], ◌∷◌, ◌++◌, arith, false}
use emufxtool.Archive.Stream.{Bytes}
use emufxtool.Archive.State.{Archive, new_archive, ok, ◌>>◌}
use emufxtool.Archive.Output.{tag_next}
use emufxtool.Archive.OutputLaws.{output}
use emufxtool.Archive.Input.{read_any}
use emufxtool.Archive.InputLaws.{input}
use emufxtool.Archive.Roundtrip.{Datum, string, write_datum, read_back, read_any-write_datum}

abbrev hi : Datum
hi = string (0x68 ∷ 0x69 ∷ [])

read_any-write_datum_example :
    (ds : Bytes) × ((tag_next >> write_datum hi) (output (new_archive none) (7 ∷ []))
      ≡ ok tt (output (record (new_archive none) { tag_bit = false }) (7 ∷ [] ++ ds)))
    × ((b : Archive) (pre rest : Bytes)
        → read_any (input b pre (ds ++ rest)) ≡ ok (read_back hi) (input b (pre ++ ds) rest))
read_any-write_datum_example = read_any-write_datum hi (new_archive none) (7 ∷ []) (omega arith)
