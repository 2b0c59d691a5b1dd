-- ===== src/Patch/Disassembly/Uses.antt =====
-- What marking the used registers leaves as it is.
use emufxtool.Base.{
  ℕ, ◌+◌, ◌%◌, ◌^◌, ◌≡◌, refl, sym, ap, ◌∙◌, some, List, [], ◌∷◌, ◌==◌, Bool-cases, Option-cases,
  inl, inr,
}
use emufxtool.Base.Table.{Table, nat_key, lookup, lookup-insert}
use emufxtool.Dsp.{Fields}
use emufxtool.Image.Data.{RegisterImage, Code, Image}
use emufxtool.Image.Operations.{get_value, split_code}
use emufxtool.Patch.Disassembly.{ReverseSymbols, mark_use, mark_uses, use_registers, find_labels}

-- What the labels depend on.
pub record Agrees (img img' : Image) : Type 0 where
  pub dsp : img'.dsp ≡ img.dsp
  pub value : (x : ℕ) → get_value img' x ≡ get_value img x

get_value-mark_use :
    (img : Image) (registers : Table ℕ RegisterImage) (addr flags x : ℕ)
    → get_value (record img { registers = mark_use addr flags registers }) x
      ≡ get_value (record img { registers = registers }) x
unfolding get_value mark_use
get_value-mark_use img registers addr flags x = elim (Option-cases (lookup addr registers)) [
  | inl e ↦ rw (e, mark_use) refl
  | inr (r, e) ↦
      rw (e, mark_use, get_value, lookup-insert addr x _ registers)
        (elim (Bool-cases (addr == x)) [
          | inl same ↦ rw (same, get_value, moved r e ((nat_key.beq_iff addr x).0 same)) refl
          | inr other ↦ rw (other, get_value) refl
        ])
]
  where
    moved :
        (r : RegisterImage)
        → lookup addr registers ≡ some r
        → addr ≡ x
        → lookup x registers ≡ some r
    moved r e same = sym (ap (λ y. lookup y registers) same) ∙ e

get_value-mark_uses :
    (img : Image) (f : Fields) (x : ℕ)
    → get_value (record img { registers = mark_uses f img.registers }) x ≡ get_value img x
unfolding mark_uses
get_value-mark_uses img f x =
    get_value-mark_use img _ f.y _ x
    ∙ (get_value-mark_use img _ f.x _ x
        ∙ (get_value-mark_use img _ f.a _ x ∙ get_value-mark_use img img.registers f.r _ x))

-- Where an instruction goes to if it is a skip: its number, the value of its operand `Y` and 1, in
-- 16 bits.
abbrev pub jump : Image → Code → ℕ
jump img c = (c.pc + get_value img (split_code c img.dsp).y + 1) % 2 ^ 16

pub jump-Agrees : (img now : Image) (c : Code) → Agrees img now → jump now c ≡ jump img c
jump-Agrees img now c a =
    let y : (split_code c now.dsp).y ≡ (split_code c img.dsp).y =
      ap (λ d. (split_code c d).y) a.dsp in
    let v : get_value now (split_code c now.dsp).y ≡ get_value img (split_code c img.dsp).y =
      a.value (split_code c now.dsp).y ∙ ap (get_value img) y in
    ap (λ x. (c.pc + x + 1) % 2 ^ 16) v

pub use_registers-Agrees :
    (img now : Image) (c : Code) → Agrees img now → Agrees img (use_registers c now)
unfolding use_registers
use_registers-Agrees img now c a = record {
  dsp = a.dsp;
  value = λ x. get_value-mark_uses now (split_code c now.dsp) x ∙ a.value x;
}

pub find_labels-Agrees :
    (code : List Code) (img now : Image) (labels : ℕ × ReverseSymbols)
    → Agrees img now
    → Agrees img (find_labels code now labels).0
unfolding find_labels
find_labels-Agrees [] img now labels a = a
find_labels-Agrees (c ∷ code) img now labels a =
    find_labels-Agrees code img (use_registers c now) _ (use_registers-Agrees img now c a)
