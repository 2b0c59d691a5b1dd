-- ===== src/Archive/InputLaws.antt =====
-- What the readers of an archive consume and return.
use mathlib.Core.List.{append_assoc, append-nil}
use emufxtool.Base.{
  ℕ, ◌/◌, ◌^◌, ◌<◌, ◌≡◌, ap, ◌∙◌, [], ◌∷◌, ◌++◌, some, arith, length, length-append, drop-append,
  take-append, take_all, get_or, ==_refl, ==_ne,
}
use emufxtool.Words.Bits.{and_mask}
use emufxtool.Archive.Stream.{Bytes}
use emufxtool.Archive.State.{Archive, Method, ok, err, beyond_end, pure, ◌>>=◌, >>=-ok}
use emufxtool.Archive.Output.{short_bytes, long_bytes}
use emufxtool.Archive.Input.{
  short_value, long_value, read_block, read_byte, read_short, read_long, read_binary, read_string,
}

-- An archive that has read `pre` and has `rest` before it.
abbrev pub input : Archive → Bytes → Bytes → Archive
input a pre rest = record a { stream = some (record { bytes = pre ++ rest; pos = length pre }) }

-- `m` consumes `ds`, returns `x` and changes nothing else.
pub record Parses {ℓ} {A : Type ℓ} (m : Method A) (ds : Bytes) (x : A) : Type ℓ where
  pub at :
      (a : Archive) (pre rest : Bytes)
      → m (input a pre (ds ++ rest)) ≡ ok x (input a (pre ++ ds) rest)

pub Parses-pure {ℓ} : {A : Type ℓ} (x : A) → Parses (pure x) [] x
Parses-pure x = record { at = λ a pre rest. rw append-nil }

pub Parses-bind {ℓ κ} :
    {A : Type ℓ} {B : Type κ} {m : Method A} (f : A → Method B) {ds es : Bytes} {x : A} {y : B}
    → Parses m ds x
    → Parses (f x) es y
    → Parses (m >>= f) (ds ++ es) y
Parses-bind {m = m} f {ds = ds} {es = es} {x = x} {y = y} p q = record {
  at = λ a pre rest.
      let first : m (input a pre (ds ++ es ++ rest)) ≡ ok x (input a (pre ++ ds) (es ++ rest)) =
        rw (append_assoc ds es rest) (p.at a pre (es ++ rest)) in
      >>=-ok m f first
      ∙ (q.at a (pre ++ ds) rest ∙ ap (λ t. ok y (input a t rest)) (append_assoc pre ds es));
}

-- The result and the last `pure`.
pub Parses-map {ℓ κ} :
    {A : Type ℓ} {B : Type κ} {m : Method A} (g : A → B) {ds : Bytes} {x : A}
    → Parses m ds x
    → Parses (m >>= λ t. pure (g t)) ds (g x)
Parses-map {m = m} g p = record { at = λ a pre rest. >>=-ok m (λ t. pure (g t)) (p.at a pre rest) }

-- Reading as many bytes as a block has returns the block.
pub read_block-Parses : (ds : Bytes) → Parses (read_block (length ds)) ds ds
unfolding read_block
read_block-Parses ds = record {
  at = λ a pre rest. rw (
    drop-append pre (ds ++ rest),
    take-append ds rest,
    ==_refl (length ds),
    append_assoc pre ds rest,
    length-append pre ds,
  );
}

-- Reading past the end of the stream throws.
pub read_block-beyond_end :
    (a : Archive) (pre rest : Bytes) (size : ℕ)
    → length rest < size
    → read_block size (input a pre rest) ≡ err beyond_end (input a (pre ++ rest) [])
unfolding read_block
read_block-beyond_end a pre rest size h = rw (
  drop-append pre rest,
  take_all size rest (omega arith),
  ==_ne (length rest) size (omega arith),
  append-nil,
  length-append pre rest,
)

pub short_value_lem : (l : ℕ) → l < 2 ^ 16 → short_value (short_bytes l) ≡ l
short_value_lem l h = omega (arith, and_mask 8 l, and_mask 8 (l / 2 ^ 8))

pub long_value_lem : (l : ℕ) → l < 2 ^ 32 → long_value (long_bytes l) ≡ l
long_value_lem l h = omega (
  arith,
  and_mask 8 l,
  and_mask 8 (l / 2 ^ 8),
  and_mask 8 (l / 2 ^ 8 / 2 ^ 8),
  and_mask 8 (l / 2 ^ 8 / 2 ^ 8 / 2 ^ 8),
)

pub read_byte-Parses : (c : ℕ) → Parses read_byte (c ∷ []) c
unfolding read_byte
read_byte-Parses c = Parses-map (λ b. get_or b 0 0) (read_block-Parses (c ∷ []))

pub read_short-Parses : (l : ℕ) → l < 2 ^ 16 → Parses read_short (short_bytes l) l
unfolding read_short
read_short-Parses l h =
    rw (short_value_lem l h) at (Parses-map short_value (read_block-Parses (short_bytes l)))

pub read_long-Parses : (l : ℕ) → l < 2 ^ 32 → Parses read_long (long_bytes l) l
unfolding read_long
read_long-Parses l h =
    rw (long_value_lem l h) at (Parses-map long_value (read_block-Parses (long_bytes l)))

pub read_binary-Parses :
    (ds : Bytes) → length ds < 2 ^ 32 → Parses read_binary (long_bytes (length ds) ++ ds) ds
unfolding read_binary
read_binary-Parses ds h =
    Parses-bind read_block (read_long-Parses (length ds) h) (read_block-Parses ds)

pub read_string-Parses :
    (ds : Bytes) → length ds < 2 ^ 32 → Parses read_string (long_bytes (length ds) ++ ds) ds
unfolding read_string
read_string-Parses ds h = read_binary-Parses ds h
