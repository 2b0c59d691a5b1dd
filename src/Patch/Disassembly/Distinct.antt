-- ===== src/Patch/Disassembly/Distinct.antt =====
-- No two places have the same label.
use emufxtool.Base.{
  ℕ, ◌+◌, ◌^◌, ◌<◌, ◌≤◌, ◌⊎◌, length, ◌≡◌, sym, ◌∙◌, some, List, [], ◌∷◌, ◌==◌, Bool-cases,
  Option-cases, inl, inr, arith,
}
use emufxtool.Base.Text.{Text}
use emufxtool.Base.Table.{nat_key, lookup, lookup-insert, insert, Table}
use emufxtool.Words.{u16}
use emufxtool.Image.Data.{Code, Image}
use emufxtool.Image.Operations.{split_code}
use emufxtool.Patch.Disassembly.Names.{label_name_injective}
use emufxtool.Patch.Disassembly.{
  ReverseSymbols, add_symbol, instr_skip, label_name, label_place, label_skip, use_registers,
  find_labels,
}

-- The labels are numbered in the order in which they are made, from 0.
pub record Named (s : ℕ × ReverseSymbols) : Type 0 where
  pub number :
      (a : ℕ) (l : Text) → lookup a s.1.symbols ≡ some l → (k : ℕ) × (k < s.0) × (l ≡ label_name k)
  pub distinct :
      (a b : ℕ) (l : Text) → lookup a s.1.symbols ≡ some l → lookup b s.1.symbols ≡ some l → a ≡ b

-- What stands at a place behind a new label.
placed :
    (addr a n : ℕ) (l : Text) (t : Table ℕ Text)
    → lookup a (insert addr (label_name n) t) ≡ some l
    → ((addr ≡ a) × (label_name n ≡ l)) ⊎ (lookup a t ≡ some l)
placed addr a n l t at = elim (Bool-cases (addr == a)) [
  | inl is ↦
      let here : some (label_name n) ≡ some l =
        rw is at (sym (lookup-insert addr a (label_name n) t) ∙ at) in
      inl ((nat_key.beq_iff addr a).0 is, cc)
  | inr other ↦ inr (rw other at (sym (lookup-insert addr a (label_name n) t) ∙ at))
]

new-Named :
    (addr n : ℕ) (labels : ReverseSymbols)
    → n < 10 ^ 10
    → Named (n, labels)
    → Named (n + 1, record labels { symbols = insert addr (label_name n) labels.symbols })
new-Named addr n labels small h = record {
  number = λ a l at. elim (placed addr a n l labels.symbols at) [
    | inl (is, new) ↦ (n, (omega arith), sym new)
    | inr old ↦ let (k, below, name) = h.number a l old in (k, (omega (arith, below)), name)
  ];
  distinct = λ a b l at bt. elim (placed addr a n l labels.symbols at) [
    | inl (is, new) ↦ elim (placed addr b n l labels.symbols bt) [
      | inl (is', new') ↦ sym is ∙ is'
      | inr old ↦ absurd (fresh b l old new)
    ]
    | inr old ↦ elim (placed addr b n l labels.symbols bt) [
      | inl (is', new) ↦ absurd (fresh a l old new)
      | inr old' ↦ h.distinct a b l old old'
    ]
  ];
}
  where
    fresh : (a : ℕ) (l : Text) → lookup a labels.symbols ≡ some l → label_name n ≡ l → ⊥
    fresh a l old new =
        let (k, below, name) = h.number a l old in
        let same = label_name_injective n k small (omega (arith, below)) (new ∙ name) in
        omega (arith, below, same)

label_place-Named :
    (addr : ℕ) (s : ℕ × ReverseSymbols)
    → s.0 < 10 ^ 10
    → Named s
    → Named (label_place addr s) × ((label_place addr s).0 ≤ s.0 + 1)
unfolding label_place add_symbol
label_place-Named addr s small h = elim (Option-cases (lookup addr s.1.symbols)) [
  | inl new ↦ rw (new, label_place) (new-Named (u16 addr) s.0 s.1 small h, omega arith)
  | inr (l, known) ↦ rw (known, label_place) (h, omega arith)
]

label_skip-Named :
    (img : Image) (c : Code) (s : ℕ × ReverseSymbols)
    → s.0 < 10 ^ 10
    → Named s
    → Named (label_skip img c s) × ((label_skip img c s).0 ≤ s.0 + 1)
unfolding label_skip
label_skip-Named img c s small h = elim (Bool-cases ((split_code c img.dsp).opcode == instr_skip)) [
  | inl skip ↦ rw (skip, label_skip) (label_place-Named _ s small h)
  | inr other ↦ rw (other, label_skip) (h, omega arith)
]

pub find_labels-distinct :
    (code : List Code) (img : Image) (s : ℕ × ReverseSymbols) (a b : ℕ) (l : Text)
    → s.0 + length code < 10 ^ 10
    → Named s
    → lookup a (find_labels code img s).1.symbols ≡ some l
    → lookup b (find_labels code img s).1.symbols ≡ some l
    → a ≡ b
unfolding find_labels
find_labels-distinct [] img s a b l small h at bt = h.distinct a b l at bt
find_labels-distinct (c ∷ code) img s a b l small h at bt =
    let (named, near) = label_skip-Named (use_registers c img) c s (omega arith) h in
    find_labels-distinct code (use_registers c img) (label_skip (use_registers c img) c s) a b l
      (omega (arith, near)) named at bt
