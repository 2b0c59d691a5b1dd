-- ===== src/Image/Tests.antt =====
-- Runs of the image.
use emufxtool.Base.{◌&&◌, not, ℕ, suc, ◌<◌, ◌≡◌, refl, [], ◌∷◌, arith, length, if◌then◌else◌, ◌==◌}
use emufxtool.Base.Table.{Table, nat_key}
use emufxtool.Dsp.{init_defaults}
use emufxtool.Dsp.Tests.{multiply_add}
use emufxtool.Image.Registers.{relocate, remap, first_free}
use emufxtool.Image.FirstFree.{IsFirstFree, first_free-IsFirstFree}
use emufxtool.Image.Constants.{IsMapped, map_constant-IsMapped}
use emufxtool.Image.Operations.{
  new_image, map_constant, new_variable, new_line, new_tram, relocate_code, split_code, new_code,
  get_tram_size,
}
use emufxtool.Image.Allocation.{
  IsVariable, IsLine, new_image-IsCoherent, new_variable-IsVariable, new_line-IsLine,
}
use emufxtool.Image.Trams.{IsTotal, new_tram_lem, relocate-remap, split_code-relocate_code}

abbrev two_taken : Table ℕ ℕ
two_taken = (0x100, 7) ∷ (0x101, 8) ∷ []

first_free-two_taken : first_free 3 two_taken 0x100 ≡ 0x102
unfolding first_free
first_free-two_taken = refl

first_free-IsFirstFree_example :
    IsFirstFree two_taken 0x100 (first_free (suc (length two_taken)) two_taken 0x100)
first_free-IsFirstFree_example = first_free-IsFirstFree two_taken 0x100

map_constant-IsMapped_example : IsMapped new_image 42 (map_constant new_image 42)
map_constant-IsMapped_example =
    map_constant-IsMapped new_image 42 new_image-IsCoherent (omega arith)

new_variable-IsVariable_example : IsVariable new_image 7 (new_variable new_image 7 0)
new_variable-IsVariable_example = new_variable-IsVariable new_image 7 0 new_image-IsCoherent

new_line-IsLine_example : IsLine new_image 5 (new_line new_image 5 0)
new_line-IsLine_example = new_line-IsLine new_image 5 0 new_image-IsCoherent (omega arith)

new_image-IsTotal : IsTotal new_image
unfolding get_tram_size
new_image-IsTotal = refl

new_tram_lem_example :
    let (n, img') = new_tram new_image 64 1 in
    IsTotal img' × (n ≡ 0) × (img'.trams ≡ record { size = 64; offset = 1; flags = 0 } ∷ [])
new_tram_lem_example = new_tram_lem new_image 64 1 new_image-IsTotal

relocate-remap_example :
    relocate (remap [] 0x150 0x160) 0x150
    ≡ (if 0x150 == 0x150 && not (0x150 == 0x160) then 0x160 else relocate [] 0x150)
relocate-remap_example = relocate-remap [] 0x150 0x160 0x150

abbrev moved : Table ℕ ℕ
moved = (0x150, 0x160) ∷ []

moved_inside : (a : ℕ) → a < 1024 → relocate moved a < 1024
unfolding relocate
moved_inside a h = ground arith

split_code-relocate_code_example :
    split_code
      (relocate_code moved init_defaults (new_code 0 multiply_add init_defaults))
      init_defaults
    ≡ record multiply_add {
      r = relocate moved 0x150;
      a = relocate moved 0x40;
      x = relocate moved 0x151;
      y = relocate moved 0x3ff;
    }
split_code-relocate_code_example =
    split_code-relocate_code moved 0 multiply_add
      (omega arith, omega arith, omega arith, omega arith, omega arith) moved_inside
