-- ===== src/Archive/OutputLaws.antt =====
-- What the writers of an archive append, without tags, and how a chunk gets its length.
use mathlib.Core.List.{append_assoc, append-nil}
use emufxtool.Base.{
  ℕ, ◌+◌, ◌≡◌, refl, ap, ◌∙◌, [], ◌∷◌, ◌++◌, false, some, length, drop, length-append, drop-append,
}
use emufxtool.Words.{u8}
use emufxtool.Archive.Stream.{Bytes, write_at}
use emufxtool.Archive.State.{Archive, Method, ok, pure, ◌>>◌, >>=-ok}
use emufxtool.Archive.Output.{
  Atom, chunk_byte, chunk_short, chunk_long, chunk_string, short_bytes, long_bytes, write_block,
  do_tagging, write_byte, write_short, write_long, write_string,
}

-- An archive whose file holds `bs` and whose position is at the end.
abbrev pub output : Archive → Bytes → Archive
output a bs = record a { stream = some (record { bytes = bs; pos = length bs }) }

drop_all : (bs : Bytes) → drop (length bs) bs ≡ []
drop_all [] = refl
drop_all (b ∷ bs) = drop_all bs

pub write_at-end : (bs ds : Bytes) → write_at (length bs) ds bs ≡ bs ++ ds
unfolding write_at
write_at-end [] [] = refl
write_at-end [] (d ∷ ds) = append-nil (d ∷ ds)
write_at-end (b ∷ bs) ds = ap (λ t. b ∷ t) (write_at-end bs ds)

-- Over as many bytes, a write replaces them.
pub write_at-middle :
    (pre old ds rest : Bytes)
    → length old ≡ length ds
    → write_at (length pre) ds (pre ++ (old ++ rest)) ≡ pre ++ (ds ++ rest)
unfolding write_at
write_at-middle [] old ds rest e = ap (λ t. ds ++ t) (rw (← e) (drop-append old rest))
write_at-middle (b ∷ pre) old ds rest e = ap (λ t. b ∷ t) (write_at-middle pre old ds rest e)

-- `m` appends `ds` to the file and changes nothing else.
pub record Emits (m : Method (Unit {0})) (ds : Bytes) : Type 0 where
  pub at :
      (a : Archive) (bs : Bytes) → a.tag_bit ≡ false → m (output a bs) ≡ ok tt (output a (bs ++ ds))

pub Emits-pure : Emits (pure tt) []
Emits-pure = record { at = λ a bs h. rw append-nil }

pub Emits-then :
    {m n : Method (Unit {0})} {ds es : Bytes} → Emits m ds → Emits n es → Emits (m >> n) (ds ++ es)
Emits-then {m = m} {n = n} {ds = ds} {es = es} p q = record {
  at = λ a bs h.
      >>=-ok m (λ _. n) (p.at a bs h)
      ∙ (q.at a (bs ++ ds) h ∙ ap (λ t. ok tt (output a t)) (append_assoc bs ds es));
}

pub write_block-Emits : (ds : Bytes) → Emits (write_block ds) ds
unfolding write_block
write_block-Emits [] = record { at = λ a bs h. rw append-nil }
write_block-Emits (d ∷ ds) = record { at = λ a bs h. rw (write_at-end, length-append) }

-- Without a pending tag, tagging writes nothing.
pub do_tagging-Emits : (t : Atom) → Emits (do_tagging t) []
unfolding do_tagging
do_tagging-Emits t = record { at = λ a bs h. rw (append-nil, h) }

pub write_byte-Emits : (c : ℕ) → Emits (write_byte c) (u8 c ∷ [])
unfolding write_byte
write_byte-Emits c = Emits-then (do_tagging-Emits chunk_byte) (write_block-Emits _)

pub write_short-Emits : (l : ℕ) → Emits (write_short l) (short_bytes l)
unfolding write_short
write_short-Emits l = Emits-then (do_tagging-Emits chunk_short) (write_block-Emits _)

pub write_long-Emits : (l : ℕ) → Emits (write_long l) (long_bytes l)
unfolding write_long
write_long-Emits l = Emits-then (do_tagging-Emits chunk_long) (write_block-Emits _)

pub write_string-Emits :
    (s : Bytes) → Emits (write_string s) (long_bytes (length s + 1) ++ (s ++ 0 ∷ []))
unfolding write_string
write_string-Emits s =
    Emits-then (do_tagging-Emits chunk_string)
      (Emits-then (write_long-Emits (length s + 1)) (write_block-Emits (s ++ 0 ∷ [])))
