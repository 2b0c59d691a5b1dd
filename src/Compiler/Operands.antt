-- ===== src/Compiler/Operands.antt =====
-- The placement of symbols and the compilation of operands, as growth of an image.
use Prim.Native.Nat.{bit_and}
use emufxtool.Base.{
  ltb, if◌then◌else◌, ℕ, zero, suc, ◌+◌, ◌-◌, ◌^◌, ◌≤◌, Option, none, some, List, [], ◌∷◌, inl, inr,
  Option-cases, Bool-cases,
}
use emufxtool.Base.Text.{codes}
use emufxtool.Base.Table.{nat_key}
use emufxtool.Words.{is_set}
use emufxtool.Flags.{v_address, v_array, v_control}
use emufxtool.Symbols.Values.{get_number_property}
use emufxtool.Symbols.Initializers.{Initializer, get_initial_value}
use emufxtool.Image.Data.{Image}
use emufxtool.Image.Operations.{new_variable}
use emufxtool.Compiler.Objects.{object, initializer, label, Program}
use emufxtool.Compiler.Allocate.{
  Kind, fixed_symbol, alias, tram, label_symbol, pure_constant, line, mapped_constant, variable,
  kind_of, add_control, add_elements, with_elements, with_control, variable_flags, as_variable,
  add_variable, place, ref_address, allocate, allocate_all,
}
use emufxtool.Compiler.Growth.{
  Grows, Grows-refl, Grows-trans, new_variable-Grows, new_line-Grows, new_tram-Grows,
  new_control-Grows, map_constant-Maps,
}

module _ (limit : ℕ) (small : limit ≤ 2 ^ 16) where
  add_elements-Grows :
      (rounds j : ℕ) (i : Initializer) (flags : ℕ) (img : Image)
      → Grows limit small img (add_elements rounds j i flags img)
  unfolding add_elements
  add_elements-Grows zero j i flags img = Grows-refl limit small img
  add_elements-Grows (suc rounds) j i flags img =
      Grows-trans limit small (new_variable-Grows limit small img _ flags)
        (add_elements-Grows rounds (j + 1) i flags _)

  add_control-Grows :
      (i : Initializer) (fl : ℕ) (img : Image) → Grows limit small img (add_control i fl img)
  unfolding add_control
  add_control-Grows i fl img = new_control-Grows limit small img _ _ _ _ _ _ _

  with_elements-Grows :
      (i : Initializer) (fl : ℕ) (img : Image) → Grows limit small img (with_elements i fl img)
  unfolding with_elements
  with_elements-Grows i fl img = elim (Bool-cases (is_set (bit_and fl v_array))) [
    | inl e ↦ rw e (
        add_elements-Grows (if ltb i.length (2 ^ 31) then i.length - 1 else 0) 1 i
          (variable_flags fl) img)
    | inr e ↦ rw e (Grows-refl limit small img)
  ]

  with_control-Grows :
      (i : Initializer) (fl : ℕ) (img : Image) → Grows limit small img (with_control i fl img)
  unfolding with_control
  with_control-Grows i fl img = elim (Bool-cases (is_set (bit_and fl v_control))) [
    | inl e ↦ rw e (add_control-Grows i fl img)
    | inr e ↦ rw e (Grows-refl limit small img)
  ]

  add_variable-Grows :
      (i : Initializer) (fl : ℕ) (img : Image) → Grows limit small img (add_variable i fl img).1
  unfolding add_variable
  add_variable-Grows i fl img =
      let (addr, first) = new_variable img (get_initial_value i 0) (variable_flags fl) in
      let i' = as_variable addr i in
      Grows-trans limit small
        (new_variable-Grows limit small img (get_initial_value i 0) (variable_flags fl))
        (Grows-trans limit small (with_elements-Grows i' fl first)
          (with_control-Grows i' fl (with_elements i' fl first)))

  place-Grows :
      (k : Kind) (ref : ℕ) (i : Initializer) (img : Image)
      → Grows limit small img (place k ref i img).1
  unfolding place
  place-Grows fixed_symbol ref i img = Grows-refl limit small img
  place-Grows alias ref i img = Grows-refl limit small img
  place-Grows tram ref i img =
      new_tram-Grows limit small img (get_initial_value i 0)
        (get_number_property i.properties (codes "size"))
  place-Grows label_symbol ref i img = Grows-refl limit small img
  place-Grows pure_constant ref i img = Grows-refl limit small img
  place-Grows line ref i img =
      new_line-Grows limit small img (get_number_property i.properties (codes "offset")) i.flags
  place-Grows mapped_constant ref i img =
      (map_constant-Maps limit small img (get_initial_value i 0)).grows
  place-Grows variable ref i img = add_variable-Grows i i.flags img

  -- What a step that may fail makes of an image.
  abbrev pub Grown : Image → Option (Program × Image) → Type 0
  Grown img none = Unit
  Grown img (some s) = Grows limit small img s.1

  allocate-Grown : (pointer : ℕ) (p : Program) (img : Image) → Grown img (allocate pointer (p, img))
  unfolding allocate
  allocate-Grown pointer p img = elim (Option-cases (object p.elements pointer)) [
    | inl e ↦ rw (e, allocate) tt
    | inr (label l, e) ↦ rw (e, allocate) (Grows-refl limit small img)
    | inr (initializer i, e) ↦ elim (Bool-cases (is_set (bit_and i.flags v_address))) [
      | inl placed ↦ rw (e, allocate, placed) (Grows-refl limit small img)
      | inr open_place ↦ elim (Option-cases (ref_address p i)) [
        | inl dangling ↦ rw (e, allocate, open_place, dangling) tt
        | inr (ref, found) ↦
            rw (e, allocate, open_place, found) (place-Grows (kind_of i.flags) ref i img)
      ]
    ]
  ]

  pub allocate_all-Grown :
      (pointers : List ℕ) (p : Program) (img : Image) → Grown img (allocate_all pointers (p, img))
  unfolding allocate_all
  allocate_all-Grown [] p img = Grows-refl limit small img
  allocate_all-Grown (pointer ∷ pointers) p img = elim (Option-cases (allocate pointer (p, img))) [
    | inl trap ↦ rw (trap, allocate_all) tt
    | inr ((p', img'), done) ↦
        let first : Grows limit small img img' = rw done at (allocate-Grown pointer p img) in
        elim (Option-cases (allocate_all pointers (p', img'))) [
          | inl trap ↦ rw (done, allocate_all, trap) tt
          | inr (s, rest) ↦
              rw (done, allocate_all, rest)
                (Grows-trans limit small first (rw rest at (allocate_all-Grown pointers p' img')))
        ]
  ]
