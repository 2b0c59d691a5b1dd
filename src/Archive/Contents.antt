-- ===== src/Archive/Contents.antt =====
-- Entering, leaving and skipping chunks: wherever the reader stops inside a chunk, it goes on
-- behind it.
use mathlib.Core.List.{append_assoc}
use emufxtool.Base.{ℕ, ◌^◌, ◌<◌, ◌≡◌, ap, sym, ◌∙◌, ◌++◌, arith, length, length-append, true, false}
use emufxtool.Words.{add32}
use emufxtool.Archive.Stream.{Bytes, seek, skip}
use emufxtool.Archive.State.{Archive, Method, ok, pure, ◌>>=◌, ◌>>◌, >>=-ok}
use emufxtool.Archive.Output.{long_bytes}
use emufxtool.Archive.Input.{skip_chunk, begin_chunk, end_chunk}
use emufxtool.Archive.InputLaws.{input, Parses, read_long-Parses}

-- `m` consumes `ds` and returns `x`; it may change what the archive knows of its chunk.
pub record Reads {ℓ} {A : Type ℓ} (m : Method A) (ds : Bytes) (x : A) : Type ℓ where
  pub at :
      (a : Archive) (pre rest : Bytes)
      → length (pre ++ ds) < 2 ^ 31
      → (a' : Archive) × (m (input a pre (ds ++ rest)) ≡ ok x (input a' (pre ++ ds) rest))

pub Parses-Reads {ℓ} :
    {A : Type ℓ} {m : Method A} {ds : Bytes} {x : A} → Parses m ds x → Reads m ds x
Parses-Reads p = record { at = λ a pre rest h. (a, p.at a pre rest) }

pub Reads-bind {ℓ κ} :
    {A : Type ℓ} {B : Type κ} {m : Method A} (f : A → Method B) {ds es : Bytes} {x : A} {y : B}
    → Reads m ds x
    → Reads (f x) es y
    → Reads (m >>= f) (ds ++ es) y
Reads-bind {m = m} f {ds = ds} {es = es} {x = x} {y = y} p q = record {
  at = λ a pre rest h.
      let fits : length (pre ++ ds) < 2 ^ 31 =
        omega (arith, h, length-append pre (ds ++ es), length-append ds es, length-append pre ds) in
      let (b, first) = p.at a pre (es ++ rest) fits in
      let (c, second) = q.at b (pre ++ ds) rest (rw append_assoc h) in
      let regrouped : m (input a pre (ds ++ es ++ rest)) ≡ ok x (input b (pre ++ ds) (es ++ rest)) =
        rw (append_assoc ds es rest) first in
      (
        c,
        >>=-ok m f regrouped ∙ (second ∙ ap (λ t. ok y (input c t rest)) (append_assoc pre ds es)),
      );
}

skip_behind :
    (pre ds rest : Bytes)
    → length (pre ++ ds) < 2 ^ 31
    → skip (length ds) (record { bytes = pre ++ (ds ++ rest); pos = length pre })
      ≡ record { bytes = pre ++ ds ++ rest; pos = length (pre ++ ds) }
unfolding skip
skip_behind pre ds rest h = ground (arith, append_assoc pre ds rest, length-append pre ds)

seek_behind :
    (pre ds rest : Bytes) (p : ℕ)
    → length (pre ++ ds) < 2 ^ 31
    → seek (add32 (length pre) (length ds)) (record { bytes = pre ++ (ds ++ rest); pos = p })
      ≡ record { bytes = pre ++ ds ++ rest; pos = length (pre ++ ds) }
unfolding seek
seek_behind pre ds rest p h = ground (arith, append_assoc pre ds rest, length-append pre ds)

-- A chunk of any kind is skipped whole.
pub skip_chunk-Reads : (ds : Bytes) → Reads skip_chunk (long_bytes (length ds) ++ ds) tt
unfolding skip_chunk
skip_chunk-Reads ds = record {
  at = λ a pre rest h.
      let sizes = length-append pre (long_bytes (length ds) ++ ds) in
      let start = pre ++ long_bytes (length ds) in
      let fits : length (start ++ ds) < 2 ^ 31 = rw append_assoc h in
      (
        a,
        rw (
          (read_long-Parses (length ds) (omega arith)).at a pre (ds ++ rest),
          skip_behind start ds rest fits,
          ◌>>=◌,
          append_assoc pre (long_bytes (length ds)) ds,
        ),
      );
}

-- A reader that stops inside a chunk, with `extra` bytes left, goes on behind it.
pub contents-Reads {ℓ κ} :
    {A : Type ℓ} {B : Type κ} (m : Method A) (g : A → B) (ds extra : Bytes) {x : A}
    → Parses m ds x
    → Reads
        (begin_chunk >>= λ _. m >>= λ t. end_chunk >> pure (g t))
        (long_bytes (length (ds ++ extra)) ++ (ds ++ extra))
        (g x)
unfolding begin_chunk end_chunk
contents-Reads m g ds extra {x} p = record {
  at = λ a pre rest h.
      let whole = ds ++ extra in
      let sizes = length-append pre (long_bytes (length whole) ++ whole) in
      let start = pre ++ long_bytes (length whole) in
      let stop = add32 (length start) (length whole) in
      let fits : length (start ++ whole) < 2 ^ 31 = rw append_assoc h in
      let b = record a { chunk_bit = true; chunk_start = length start; chunk_end = stop } in
      let regrouped : start ++ ds ++ (extra ++ rest) ≡ start ++ (whole ++ rest) =
        append_assoc start ds (extra ++ rest)
        ∙ ap (λ t. start ++ t) (sym (append_assoc ds extra rest)) in
      let land : seek stop
            (record { bytes = start ++ ds ++ (extra ++ rest); pos = length (start ++ ds) })
          ≡ record { bytes = start ++ whole ++ rest; pos = length (start ++ whole) } =
        rw regrouped (seek_behind start whole rest (length (start ++ ds)) fits) in
      (
        record b { chunk_bit = false },
        rw (
          (read_long-Parses (length whole) (omega arith)).at a pre (whole ++ rest),
          ◌>>=◌,
          append_assoc ds extra rest,
          p.at b start (extra ++ rest),
          land,
          append_assoc pre (long_bytes (length whole)) whole,
        ),
      );
}
