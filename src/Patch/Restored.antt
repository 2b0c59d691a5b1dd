-- ===== src/Patch/Restored.antt =====
-- Each chunk of a saved file is loaded, and the chunks after it.
use emufxtool.Base.{
  ℕ, suc, ◌^◌, ◌<◌, ◌≡◌, refl, false, Option, some, List, [], ◌∷◌, ◌++◌, length, arith, ◌==◌,
}
use mathlib.Core.List.{append-nil}
use emufxtool.Base.Text.{Text, c_string, c_string_closed, is_c_string-IsCString}
use emufxtool.Archive.Stream.{Bytes}
use emufxtool.Archive.State.{Method, pure, ◌>>=◌}
use emufxtool.Archive.Output.{short_bytes, long_bytes, eoc}
use emufxtool.Archive.Input.{read_short, next_chunk, skip_chunk}
use emufxtool.Archive.InputLaws.{Parses, Parses-pure, Parses-bind, read_short-Parses}
use emufxtool.Archive.Chunks.{chunk_bytes}
use emufxtool.Archive.Contents.{Reads, Parses-Reads, Reads-bind, skip_chunk-Reads, contents-Reads}
use emufxtool.Patch.Format.{compiled_for, notice}
use emufxtool.Patch.Layout.{string_bytes, comment_bytes}
use emufxtool.Patch.Load.{in_chunk, Loading, load_chunk, load_chunks, read_comments}
use emufxtool.Patch.Storable.{IsName}
use emufxtool.Patch.Records.{read_name-Parses}

-- A chunk that is read whole.
pub whole-Reads {ℓ κ} :
    {A : Type ℓ} {B : Type κ} (m : Method A) (g : A → B) (ds : Bytes) {x : A}
    → Parses m ds x
    → Reads (in_chunk m g) (long_bytes (length ds) ++ ds) (g x)
whole-Reads m g ds p = rw append-nil at (contents-Reads m g ds [] p)

-- A chunk that is entered and left.
pub unread-Reads {κ} :
    {B : Type κ} (g : Unit {0} → B) (ds : Bytes)
    → Reads (in_chunk {A = Unit {0}} (pure tt) g) (long_bytes (length ds) ++ ds) (g tt)
unread-Reads g ds = contents-Reads (pure tt) g [] ds (Parses-pure tt)

pub load_chunks-step :
    (fuel id : ℕ) (l l' : Loading) (ds : Bytes) {rest : Bytes} {r : Option Loading}
    → id < 2 ^ 16
    → (id == eoc) ≡ false
    → Reads (load_chunk fuel id l) (long_bytes (length ds) ++ ds) (some l')
    → Reads (load_chunks fuel l') rest r
    → Reads (load_chunks (suc fuel) l) (chunk_bytes id ds ++ rest) r
unfolding load_chunks next_chunk
load_chunks-step fuel id l l' ds fits other first after =
    Reads-bind _ (Parses-Reads (read_short-Parses id fits)) (rw other (Reads-bind _ first after))

pub load_chunks-eoc :
    (fuel : ℕ) (l : Loading) → Reads (load_chunks (suc fuel) l) (short_bytes eoc) (some l)
unfolding load_chunks next_chunk
load_chunks-eoc fuel l =
    Reads-bind _ (Parses-Reads (read_short-Parses eoc (omega arith)))
      (Parses-Reads (Parses-pure (some l)))

read_comments-more :
    (fuel c : ℕ) (cs : Text) (printed : List Text) (es : Bytes) (y : Option (List Text))
    → IsName (c ∷ cs)
    → Parses (read_comments fuel (printed ++ (c ∷ cs) ∷ [])) es y
    → Parses (read_comments (suc fuel) printed) (string_bytes (c ∷ cs) ++ es) y
unfolding read_comments
read_comments-more fuel c cs printed es y name after =
    Parses-bind _ (read_name-Parses (c ∷ cs) name) (rw (c_string_closed (c ∷ cs) name.0) after)

read_comments-end :
    (fuel : ℕ) (printed : List Text)
    → Parses (read_comments (suc fuel) printed) (string_bytes []) (some printed)
unfolding read_comments c_string
read_comments-end fuel printed =
    Parses-bind _ (read_name-Parses [] (tt, omega arith)) (Parses-pure (some printed))

pub read_comments-Parses :
    (fuel : ℕ) (printed : List Text)
    → Parses
        (read_comments (suc (suc (suc fuel))) printed)
        comment_bytes
        (some (printed ++ compiled_for ∷ [] ++ notice ∷ []))
unfolding comment_bytes
read_comments-Parses fuel printed =
    read_comments-more _ _ _ _ _ _ (is_c_string-IsCString compiled_for refl, omega arith)
      (read_comments-more _ _ _ _ _ _ (is_c_string-IsCString notice refl, omega arith)
        (read_comments-end fuel _))

-- A chunk that is skipped.
pub skipped-Reads {κ} :
    {B : Type κ} (x : B) (ds : Bytes)
    → Reads (skip_chunk >>= λ _. pure x) (long_bytes (length ds) ++ ds) x
skipped-Reads x ds =
    rw append-nil at (Reads-bind (λ _. pure x) (skip_chunk-Reads ds) (Parses-Reads (Parses-pure x)))

-- A chunk of records, after their count.
pub counted-Reads {ℓ κ} :
    {A : Type ℓ} {B : Type κ} (m : ℕ → Method A) (g : A → B) (n : ℕ) (ds : Bytes) {x : A}
    → n < 2 ^ 16
    → Parses (m n) ds x
    → Reads
        (in_chunk (read_short >>= m) g)
        (long_bytes (length (short_bytes n ++ ds)) ++ (short_bytes n ++ ds))
        (g x)
counted-Reads m g n ds h p = whole-Reads _ g _ (Parses-bind m (read_short-Parses n h) p)
