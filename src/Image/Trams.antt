-- ===== src/Image/Trams.antt =====
-- Tram blocks and relocation.
use emufxtool.Base.{
  ◌&&◌, not, ℕ, ◌<◌, ◌≡◌, refl, ap, ◌∙◌, List, [], ◌∷◌, ◌++◌, arith, ◌==◌, if◌then◌else◌,
}
use emufxtool.Base.Table.{Table, nat_key, lookup-insert}
use emufxtool.Words.{add32}
use emufxtool.Dsp.{Fields, init_defaults}
use emufxtool.Dsp.Packing.{InRange}
use emufxtool.Dsp.Laws.{split_instr-join_instr}
use emufxtool.Image.Data.{Image, TramImage}
use emufxtool.Image.Registers.{relocate, remap}
use emufxtool.Image.Operations.{
  new_tram, sum_sizes, get_tram_size, relocate_code, split_code, new_code,
}

-- The running total of the tram blocks is their sum, in 32 bits.
abbrev pub IsTotal : Image → Type 0
IsTotal img = get_tram_size img ≡ img.current_tram_size

sum_sizes-snoc :
    (acc : ℕ) (t : TramImage) (trams : List TramImage)
    → sum_sizes acc (trams ++ t ∷ []) ≡ add32 (sum_sizes acc trams) t.size
unfolding sum_sizes
sum_sizes-snoc acc t [] = refl
sum_sizes-snoc acc t (u ∷ trams) = sum_sizes-snoc (add32 acc u.size) t trams

-- A new tram block keeps the running total equal to the sum of the sizes, and has the number of
-- blocks so far for its own. It is stored with the running total as its flags and the given flags
-- as its offset: the source passes the three words in another order than the constructor takes.
pub new_tram_lem :
    (img : Image) (size flags : ℕ)
    → IsTotal img
    → let (n, img') = new_tram img size flags in
      IsTotal img'
      × (n ≡ img.current_tram)
      × (img'.trams
          ≡ img.trams ++ record { size = size; offset = flags; flags = img.current_tram_size } ∷ [])
unfolding new_tram get_tram_size
new_tram_lem img size flags total =
    (sum_sizes-snoc 0 _ img.trams ∙ ap (λ t. add32 t size) total, refl, refl)

-- After an address is remapped to another, it relocates to its new place and every other one to
-- where it went before. Remapping an address to itself changes nothing: it relocates to where it
-- went before, which is not itself if it had an entry.
pub relocate-remap :
    (m : Table ℕ ℕ) (addr reloc a : ℕ)
    → relocate (remap m addr reloc) a
      ≡ (if addr == a && not (addr == reloc) then reloc else relocate m a)
unfolding relocate remap
relocate-remap m addr reloc a = ground (arith, lookup-insert addr a reloc m)

-- In range, relocating an instruction's code maps its four operands and keeps its operation.
pub split_code-relocate_code :
    (m : Table ℕ ℕ) (pc : ℕ) (f : Fields)
    → InRange f
    → ((a : ℕ) → a < 1024 → relocate m a < 1024)
    → split_code (relocate_code m init_defaults (new_code pc f init_defaults)) init_defaults
      ≡ record f { r = relocate m f.r; a = relocate m f.a; x = relocate m f.x; y = relocate m f.y }
unfolding split_code relocate_code new_code
split_code-relocate_code m pc f h inside = rw (split_instr-join_instr f h) (
    split_instr-join_instr
      (record f { r = relocate m f.r; a = relocate m f.a; x = relocate m f.x; y = relocate m f.y })
      (h.0, inside f.r h.1, inside f.a h.2, inside f.x h.3, inside f.y h.4))
