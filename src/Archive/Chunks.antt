-- ===== src/Archive/Chunks.antt =====
-- A chunk that is opened, filled and closed carries its length in front of its contents.
use mathlib.Core.List.{append_assoc, append-nil}
use emufxtool.Base.{
  ℕ, ◌+◌, ◌^◌, ◌<◌, ◌≡◌, refl, ap, ◌∙◌, [], ◌++◌, true, false, some, arith, length, length-append,
}
use emufxtool.Words.{sub32}
use emufxtool.Archive.Stream.{Bytes, Stream, seek}
use emufxtool.Archive.State.{Archive, Method, ok, pure, >>=-ok, ◌>>=◌, ◌>>◌}
use emufxtool.Archive.Output.{
  short_bytes, long_bytes, write_block, do_tagging, write_long, new_chunk, close_chunk,
}
use emufxtool.Archive.OutputLaws.{
  output, Emits, write_at-middle, write_short-Emits, write_long-Emits,
}

-- The archive inside a chunk whose contents begin at `start`.
abbrev pub inside : Archive → ℕ → ℕ → Archive
inside a id start = record a { chunk_id = id; chunk_start = start; chunk_bit = true }

-- The archive behind a chunk that began at `start` and ended at `stop`.
abbrev pub behind : Archive → ℕ → ℕ → Archive
behind a start stop = record a {
  chunk_id = 0;
  chunk_start = start;
  chunk_end = stop;
  chunk_bit = false;
}

abbrev pub chunk_bytes : ℕ → Bytes → Bytes
chunk_bytes id ds = short_bytes id ++ (long_bytes (length ds) ++ ds)

-- Opening a chunk writes its number and an empty length.
new_chunk-output :
    (id : ℕ) (a : Archive) (bs : Bytes)
    → a.tag_bit ≡ false
    → a.chunk_bit ≡ false
    → new_chunk id (output a bs)
      ≡ ok tt (
          output
            (inside a id (length (bs ++ short_bytes id) + 4))
            (bs ++ short_bytes id ++ long_bytes 0))
unfolding new_chunk
new_chunk-output id a bs tag bit =
    let b = record a { chunk_id = id; chunk_bit = false } in
    rw (
      bit,
      (write_short-Emits id).at b bs tag,
      (write_long-Emits 0).at b (bs ++ short_bytes id) tag,
      ◌>>=◌,
      length-append (bs ++ short_bytes id) (long_bytes 0),
    )

seek_to : (p : ℕ) (s : Stream) → p < 2 ^ 31 → seek p s ≡ record s { pos = p }
unfolding seek
seek_to p s h = ground arith

-- Writing a length over the empty one.
patch_length :
    (l : ℕ) (a : Archive) (pre old rest : Bytes)
    → a.tag_bit ≡ false
    → length old ≡ 4
    → write_long l
        (record a { stream = some (record { bytes = pre ++ (old ++ rest); pos = length pre }) })
      ≡ ok tt (record a {
        stream = some (record { bytes = pre ++ (long_bytes l ++ rest); pos = length pre + 4 });
      })
unfolding write_long write_block do_tagging
patch_length l a pre old rest tag e = rw (tag, write_at-middle pre old (long_bytes l) rest e)

close_chunk-output :
    (a : Archive) (id : ℕ) (pre old ds : Bytes)
    → a.tag_bit ≡ false
    → length old ≡ 4
    → length (pre ++ (old ++ ds)) < 2 ^ 31
    → close_chunk (output (inside a id (length pre + 4)) (pre ++ (old ++ ds)))
      ≡ ok tt (
          output
            (behind a (length pre + 4) (length (pre ++ (old ++ ds))))
            (pre ++ (long_bytes (length ds) ++ ds)))
unfolding close_chunk
close_chunk-output a id pre old ds tag e h =
    let whole = pre ++ (old ++ ds) in
    let size : length whole ≡ length pre + (4 + length ds) =
      omega (arith, length-append pre (old ++ ds), length-append old ds) in
    let final = pre ++ (long_bytes (length ds) ++ ds) in
    let same : length final ≡ length whole =
      omega (arith, size, length-append pre (long_bytes (length ds) ++ ds)) in
    let b = record a {
      chunk_id = id;
      chunk_start = length pre + 4;
      chunk_end = length whole;
      chunk_bit = true;
    } in
    let back : sub32 (length pre + 4) 4 ≡ length pre = omega arith in
    let filled : sub32 (length whole) (length pre + 4) ≡ length ds = omega arith in
    rw (
      back,
      filled,
      seek_to (length pre) (record { bytes = whole; pos = length whole }) (omega arith),
      patch_length (length ds) b pre old ds tag e,
      ◌>>=◌,
      seek_to (length whole) (record { bytes = final; pos = length pre + 4 }) h,
      same,
    )

-- `m` appends `ds` to an archive that stands between chunks, and leaves it there. Files stay
-- below 2 ^ 31 bytes, since `fseek` takes a `long`.
pub record Writes (m : Method (Unit {0})) (ds : Bytes) : Type 0 where
  pub at :
      (a : Archive) (bs : Bytes)
      → a.tag_bit ≡ false
      → a.chunk_bit ≡ false
      → length (bs ++ ds) < 2 ^ 31
      → (a' : Archive) × (a'.tag_bit ≡ false)
        × (a'.chunk_bit ≡ false)
        × (m (output a bs) ≡ ok tt (output a' (bs ++ ds)))

pub Writes-pure : Writes (pure tt) []
Writes-pure = record { at = λ a bs tag bit h. (a, tag, bit, rw append-nil) }

pub Writes-then :
    {m n : Method (Unit {0})} {ds es : Bytes}
    → Writes m ds
    → Writes n es
    → Writes (m >> n) (ds ++ es)
Writes-then {m = m} {n = n} {ds = ds} {es = es} p q = record {
  at = λ a bs tag bit h.
      let fits : length (bs ++ ds) < 2 ^ 31 =
        omega (arith, h, length-append bs (ds ++ es), length-append ds es, length-append bs ds) in
      let (b, tag', bit', first) = p.at a bs tag bit fits in
      let (c, tag'', bit'', second) = q.at b (bs ++ ds) tag' bit' (rw append_assoc h) in
      (
        c,
        tag'',
        bit'',
        >>=-ok m (λ _. n) first ∙ (second ∙ ap (λ t. ok tt (output c t)) (append_assoc bs ds es)),
      );
}

-- A chunk of whatever contents.
pub chunk-Writes :
    (id : ℕ) (body : Method (Unit {0})) {ds : Bytes}
    → Emits body ds
    → Writes (new_chunk id >> (body >> close_chunk)) (chunk_bytes id ds)
chunk-Writes id body {ds} emits = record {
  at = λ a bs tag bit h.
      let pre = bs ++ short_bytes id in
      let start = length pre + 4 in
      let fits : length (bs ++ chunk_bytes id ds) < 2 ^ 31
          → length (pre ++ (long_bytes 0 ++ ds)) < 2 ^ 31 =
        λ k. omega (
          arith,
          length-append bs (chunk_bytes id ds),
          length-append pre (long_bytes 0 ++ ds),
          length-append bs (short_bytes id),
        ) in
      (
        behind a start (length (pre ++ (long_bytes 0 ++ ds))),
        tag,
        refl,
        rw (
          new_chunk-output id a bs tag bit,
          emits.at (inside a id start) (pre ++ long_bytes 0) tag,
          append_assoc pre (long_bytes 0) ds,
          close_chunk-output a id pre (long_bytes 0) ds tag refl (fits h),
          ◌>>=◌,
          append_assoc bs (short_bytes id) (long_bytes (length ds) ++ ds),
        ),
      );
}
