-- ===== src/Compiler/Growth.antt =====
-- How an image grows while a program is placed in it.
use emufxtool.Base.{
  ℕ, ◌^◌, ◌≤◌, ◌<◌, ◌≡◌, refl, ◌∙◌, none, some, List, arith, inl, inr, Option-cases,
}
use emufxtool.Base.Table.{nat_key, lookup, lookup-insert, lookup-insert_self}
use emufxtool.Words.{u16}
use emufxtool.Dsp.{Fields}
use emufxtool.Archive.Stream.{Bytes}
use emufxtool.Image.Data.{TramImage, Control, Export, Image}
use emufxtool.Image.FirstFree.{first_free-IsFirstFree}
use emufxtool.Image.Operations.{
  new_register, new_variable, new_line, new_tram, map_constant, new_control, new_export,
  new_instruction, get_value,
}
use emufxtool.Image.Constants.{IsCoherent, next_free, with_constant-IsCoherent, map_constant_known}
use emufxtool.Image.Allocation.{new_variable-IsVariable, new_line-IsLine}

-- `limit` is an address that the registers of the program stay below.
module _ (limit : ℕ) (small : limit ≤ 2 ^ 16) where
  pub record Grows (img img' : Image) : Type 0 where
    pub gpr : img.current_gpr ≤ img'.current_gpr
    pub line : img.current_line ≤ img'.current_line
    pub same_code : img'.code ≡ img.code
    pub same_dsp : img'.dsp ≡ img.dsp
    pub constants : (c a : ℕ) → lookup c img.constants ≡ some a → lookup c img'.constants ≡ some a
    pub coherent :
        img'.current_gpr ≤ limit → limit ≤ img.current_line → IsCoherent img → IsCoherent img'

  pub Grows-refl : (img : Image) → Grows img img
  Grows-refl img = record {
    gpr = omega arith;
    line = omega arith;
    same_code = refl;
    same_dsp = refl;
    constants = λ c a h. h;
    coherent = λ below above h. h;
  }

  pub Grows-trans : {a b c : Image} → Grows a b → Grows b c → Grows a c
  Grows-trans f g = record {
    gpr = omega (arith, f.gpr, g.gpr);
    line = omega (arith, f.line, g.line);
    same_code = g.same_code ∙ f.same_code;
    same_dsp = g.same_dsp ∙ f.same_dsp;
    constants = λ k v h. g.constants k v (f.constants k v h);
    coherent = λ below above h.
        g.coherent below (omega (arith, f.line)) (f.coherent (omega (arith, g.gpr)) above h);
  }

  -- The same without the code.
  pub record Carries (img img' : Image) : Type 0 where
    pub gpr : img.current_gpr ≤ img'.current_gpr
    pub line : img.current_line ≤ img'.current_line
    pub same_dsp : img'.dsp ≡ img.dsp
    pub constants : (c a : ℕ) → lookup c img.constants ≡ some a → lookup c img'.constants ≡ some a
    pub coherent :
        img'.current_gpr ≤ limit → limit ≤ img.current_line → IsCoherent img → IsCoherent img'

  pub Grows-Carries : {img img' : Image} → Grows img img' → Carries img img'
  Grows-Carries g = record {
    gpr = g.gpr;
    line = g.line;
    same_dsp = g.same_dsp;
    constants = g.constants;
    coherent = g.coherent;
  }

  pub Carries-trans : {a b c : Image} → Carries a b → Carries b c → Carries a c
  Carries-trans f g = record {
    gpr = omega (arith, f.gpr, g.gpr);
    line = omega (arith, f.line, g.line);
    same_dsp = g.same_dsp ∙ f.same_dsp;
    constants = λ k v h. g.constants k v (f.constants k v h);
    coherent = λ below above h.
        g.coherent below (omega (arith, f.line)) (f.coherent (omega (arith, g.gpr)) above h);
  }

  pub new_instruction-Carries : (img : Image) (f : Fields) → Carries img (new_instruction img f).1
  unfolding new_instruction get_value
  new_instruction-Carries img f = record {
    gpr = omega arith;
    line = omega arith;
    same_dsp = refl;
    constants = λ c a h. h;
    coherent = λ below above h. record { below = h.below; agrees = h.agrees };
  }

  pub new_variable-Grows :
      (img : Image) (value flags : ℕ) → Grows img (new_variable img value flags).1
  unfolding new_variable new_register
  new_variable-Grows img value flags =
      let found = first_free-IsFirstFree img.registers img.current_gpr in
      record {
        gpr = omega (arith, found.from);
        line = omega arith;
        same_code = refl;
        same_dsp = refl;
        constants = λ c a h. h;
        coherent = λ below above h. (new_variable-IsVariable img value flags h).coherent;
      }

  pub new_line-Grows : (img : Image) (offset flags : ℕ) → Grows img (new_line img offset flags).1
  unfolding new_line new_register
  new_line-Grows img offset flags =
      let found = first_free-IsFirstFree img.registers img.current_line in
      record {
        gpr = omega arith;
        line = omega (arith, found.from);
        same_code = refl;
        same_dsp = refl;
        constants = λ c a h. h;
        coherent = λ below above h. (new_line-IsLine img offset flags h (omega arith)).coherent;
      }

  -- Trams, controls and exports leave the rest alone.
  with_lists-Grows :
      (img : Image) (tram size : ℕ) (trams : List TramImage) (controls : List Control)
      (exports : List Export)
      → Grows img (record img {
        current_tram = tram;
        current_tram_size = size;
        trams = trams;
        controls = controls;
        exports = exports;
      })
  unfolding get_value
  with_lists-Grows img tram size trams controls exports = record {
    gpr = omega arith;
    line = omega arith;
    same_code = refl;
    same_dsp = refl;
    constants = λ c a h. h;
    coherent = λ below above h. record { below = h.below; agrees = h.agrees };
  }

  pub new_tram-Grows : (img : Image) (size flags : ℕ) → Grows img (new_tram img size flags).1
  unfolding new_tram
  new_tram-Grows img size flags =
      let img' = (new_tram img size flags).1 in
      with_lists-Grows img img'.current_tram img'.current_tram_size img'.trams img.controls
        img.exports

  pub new_control-Grows :
      (img : Image) (name : Bytes) (fl gpr count min max ttable : ℕ)
      → Grows img (new_control img name fl gpr count min max ttable).1
  unfolding new_control
  new_control-Grows img name fl gpr count min max ttable =
      with_lists-Grows img img.current_tram img.current_tram_size img.trams
        (new_control img name fl gpr count min max ttable).1.controls img.exports

  pub new_export-Grows :
      (img : Image) (symbol : Bytes) (fl addr count : ℕ)
      → Grows img (new_export img symbol fl addr count).1
  unfolding new_export
  new_export-Grows img symbol fl addr count =
      with_lists-Grows img img.current_tram img.current_tram_size img.trams img.controls
        (new_export img symbol fl addr count).1.exports

  -- A constant that is mapped.
  pub record Maps (img : Image) (constant : ℕ) (result : ℕ × Image) : Type 0 where
    pub grows : Grows img result.1
    pub is_small : result.1.current_gpr ≤ limit → IsCoherent img → result.0 < 2 ^ 16
    pub mapped : result.1.current_gpr ≤ limit → lookup constant result.1.constants ≡ some result.0

  map_constant_known-Maps :
      (img : Image) (constant addr : ℕ)
      → lookup constant img.constants ≡ some addr
      → Maps img constant (addr, img)
  map_constant_known-Maps img constant addr known = record {
    grows = Grows-refl img;
    is_small = λ below h. omega (arith, h.below constant addr known);
    mapped = λ below. known;
  }

  map_constant_new-Maps :
      (img : Image) (constant : ℕ)
      → lookup constant img.constants ≡ none
      → Maps img constant (map_constant img constant)
  unfolding map_constant new_register
  map_constant_new-Maps img constant new =
      let found = first_free-IsFirstFree img.registers img.current_gpr in
      let addr = next_free img in
      rw (new, map_constant)
        (record {
          grows = record {
            gpr = omega (arith, found.from);
            line = omega arith;
            same_code = refl;
            same_dsp = refl;
            constants = λ c a h. ground (arith, lookup-insert constant c (u16 addr) img.constants);
            coherent = λ below above h.
                let fits : u16 addr ≡ addr = omega (arith, below, small) in
                rw fits (rw fits at (with_constant-IsCoherent img constant addr h new found.from));
          };
          is_small = λ below h. omega (arith, below, small);
          mapped = λ below.
              let fits : u16 addr ≡ addr = omega (arith, below, small) in
              rw fits (lookup-insert_self constant addr img.constants);
        })

  pub map_constant-Maps :
      (img : Image) (constant : ℕ) → Maps img constant (map_constant img constant)
  map_constant-Maps img constant = elim (Option-cases (lookup constant img.constants)) [
    | inr (addr, known) ↦
        rw (map_constant_known img constant addr known)
          (map_constant_known-Maps img constant addr known)
    | inl new ↦ map_constant_new-Maps img constant new
  ]
