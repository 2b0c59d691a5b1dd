-- ===== src/Archive/Roundtrip.antt =====
-- What is written under a tag is read back by `readAny`, whatever its type.
use mathlib.Core.List.{append_assoc}
use emufxtool.Base.{
  ℕ, ◌+◌, ◌^◌, ◌<◌, ◌≡◌, refl, [], ◌∷◌, ◌++◌, true, false, arith, length, length-append,
}
use emufxtool.Words.{u8}
use emufxtool.Archive.Stream.{Bytes}
use emufxtool.Archive.State.{Archive, Method, ok, ◌>>=◌, ◌>>◌}
use emufxtool.Archive.Output.{
  Atom, chunk_byte, chunk_short, chunk_long, chunk_string, chunk_binary, atom_code, short_bytes,
  long_bytes, write_block, do_tagging, tag_next, write_byte, write_short, write_long, write_string,
  write_binary,
}
use emufxtool.Archive.OutputLaws.{output, Emits, Emits-then, write_block-Emits, write_long-Emits}
use emufxtool.Archive.Input.{Any, number, block, read_any}
use emufxtool.Archive.InputLaws.{
  input, Parses, Parses-map, Parses-bind, read_byte-Parses, read_short-Parses, read_long-Parses,
  read_string-Parses, read_binary-Parses,
}

-- A value for each of the typed writers.
pub data Datum : Type 0 where
  byte short long : ℕ → Datum
  string binary : Bytes → Datum

unfoldable pub write_datum : Datum → Method (Unit {0})
write_datum (byte c) = write_byte c
write_datum (short l) = write_short l
write_datum (long l) = write_long l
write_datum (string s) = write_string s
write_datum (binary b) = write_binary b

-- The value fits its type, and a string ends at its first 0.
abbrev pub Fits : Datum → Type 0
Fits (byte c) = c < 2 ^ 8
Fits (short l) = l < 2 ^ 16
Fits (long l) = l < 2 ^ 32
Fits (string s) = length s + 1 < 2 ^ 32
Fits (binary b) = length b < 2 ^ 32

abbrev pub payload : Datum → Bytes
payload (byte c) = u8 c ∷ []
payload (short l) = short_bytes l
payload (long l) = long_bytes l
payload (string s) = long_bytes (length s + 1) ++ (s ++ 0 ∷ [])
payload (binary b) = long_bytes (length b) ++ b

abbrev pub atom : Datum → Atom
atom (byte c) = chunk_byte
atom (short l) = chunk_short
atom (long l) = chunk_long
atom (string s) = chunk_string
atom (binary b) = chunk_binary

-- What `readAny` makes of it: a string comes with its closing 0.
abbrev pub read_back : Datum → Any
read_back (byte c) = number 0 1 c
read_back (short l) = number 1 2 l
read_back (long l) = number 2 4 l
read_back (string s) = block 3 (length s + 1) (s ++ 0 ∷ [])
read_back (binary b) = block 4 (length b) b

-- The part of each writer behind its tag.
abbrev untagged : Datum → Method (Unit {0})
untagged (byte c) = write_block (u8 c ∷ [])
untagged (short l) = write_block (short_bytes l)
untagged (long l) = write_block (long_bytes l)
untagged (string s) = write_long (length s + 1) >> write_block (s ++ 0 ∷ [])
untagged (binary b) = write_long (length b) >> write_block b

untagged-Emits : (d : Datum) → Emits (untagged d) (payload d)
untagged-Emits (byte c) = write_block-Emits _
untagged-Emits (short l) = write_block-Emits _
untagged-Emits (long l) = write_block-Emits _
untagged-Emits (string s) = Emits-then (write_long-Emits _) (write_block-Emits _)
untagged-Emits (binary b) = Emits-then (write_long-Emits _) (write_block-Emits _)

write_datum-split : (d : Datum) → write_datum d ≡ (do_tagging (atom d) >> untagged d)
unfolding write_datum write_byte write_short write_long write_string write_binary
write_datum-split (byte c) = refl
write_datum-split (short l) = refl
write_datum-split (long l) = refl
write_datum-split (string s) = refl
write_datum-split (binary b) = refl

do_tagging-tagged :
    (t : Atom) (a : Archive) (bs : Bytes)
    → do_tagging t (output (record a { tag_bit = true }) bs)
      ≡ ok tt (output (record a { tag_bit = false }) (bs ++ atom_code t ∷ []))
unfolding do_tagging
do_tagging-tagged t a bs =
    (write_block-Emits (atom_code t ∷ [])).at (record a { tag_bit = false }) bs refl

tag_written :
    (d : Datum) (a : Archive) (bs : Bytes)
    → (tag_next >> write_datum d) (output a bs)
      ≡ ok tt (output (record a { tag_bit = false }) (bs ++ atom_code (atom d) ∷ payload d))
unfolding tag_next
tag_written d a bs = rw (
  write_datum-split d,
  do_tagging-tagged (atom d) a bs,
  ◌>>=◌,
  (untagged-Emits d).at (record a { tag_bit = false }) (bs ++ atom_code (atom d) ∷ []) refl,
  append_assoc bs (atom_code (atom d) ∷ []) (payload d),
)

read_any-Parses :
    (d : Datum) → Fits d → Parses read_any (atom_code (atom d) ∷ payload d) (read_back d)
unfolding read_any
read_any-Parses (byte c) h =
    let same : u8 c ≡ c = omega arith in
    Parses-bind _ (read_byte-Parses 0) (Parses-map (number 0 1) (rw same (read_byte-Parses c)))
read_any-Parses (short l) h =
    Parses-bind _ (read_byte-Parses 1) (Parses-map (number 1 2) (read_short-Parses l h))
read_any-Parses (long l) h =
    Parses-bind _ (read_byte-Parses 2) (Parses-map (number 2 4) (read_long-Parses l h))
read_any-Parses (string s) h =
    let closed = s ++ 0 ∷ [] in
    let size : length closed ≡ length s + 1 = length-append s (0 ∷ []) in
    rw (← size) (
      Parses-bind _ (read_byte-Parses 3)
        (Parses-map (λ t. block 3 (length t) t) (read_string-Parses closed (rw size h))))
read_any-Parses (binary b) h =
    Parses-bind _ (read_byte-Parses 4)
      (Parses-map (λ t. block 4 (length t) t) (read_binary-Parses b h))

-- For every type of value, a value that fits: under `tag_next` the archive appends some bytes and
-- takes the tag back, and `read_any`, before those bytes and whatever follows, returns the value
-- with the code of its type and its size, and stands behind them.
pub read_any-write_datum :
    (d : Datum) (a : Archive) (bs : Bytes)
    → Fits d
    → (ds : Bytes) × ((tag_next >> write_datum d) (output a bs)
        ≡ ok tt (output (record a { tag_bit = false }) (bs ++ ds)))
      × ((b : Archive) (pre rest : Bytes)
          → read_any (input b pre (ds ++ rest)) ≡ ok (read_back d) (input b (pre ++ ds) rest))
read_any-write_datum d a bs h =
    (atom_code (atom d) ∷ payload d, tag_written d a bs, (read_any-Parses d h).at)
