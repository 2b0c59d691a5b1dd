-- ===== src/Patch/Disassembly/Labels.antt =====
-- The labels of a disassembled program.
use emufxtool.Base.{
  ℕ, zero, suc, ◌^◌, ◌<◌, ◌↔◌, length, ◌≡◌, refl, sym, ap, ◌∙◌, some, List, [], ◌∷◌, ◌++◌, ◌==◌,
  get_elem?, Bool-cases, Option-cases, inl, inr, arith,
}
use emufxtool.Base.Text.{Text, codes}
use emufxtool.Base.Table.{nat_key, lookup, lookup-insert, lookup-insert_self}
use emufxtool.Words.{u16}
use emufxtool.Image.Data.{Code, Image}
use emufxtool.Image.Operations.{split_code}
use emufxtool.Patch.Disassembly.Uses.{
  Agrees, jump, jump-Agrees, use_registers-Agrees, find_labels-Agrees,
}
use emufxtool.Patch.Disassembly.Distinct.{Named, find_labels-distinct}
use emufxtool.Patch.Disassembly.{
  ReverseSymbols, get_string, add_symbol, instr_skip, skip_target, label_target, un_asm,
  label_place, label_skip, use_registers, find_labels,
}

label_place-keeps :
    (addr k n : ℕ) (l : Text) (labels : ReverseSymbols)
    → u16 addr ≡ addr
    → lookup k labels.symbols ≡ some l
    → lookup k (label_place addr (n, labels)).1.symbols ≡ some l
unfolding label_place add_symbol
label_place-keeps addr k n l labels h e = elim (Option-cases (lookup addr labels.symbols)) [
  | inl new ↦
      rw (new, h, label_place, lookup-insert addr k _ labels.symbols)
        (elim (Bool-cases (addr == k)) [
          | inl same ↦ grind (arith, (nat_key.beq_iff addr k).0 same)
          | inr other ↦ rw other e
        ])
  | inr (r, known) ↦ rw (known, label_place) e
]

label_place-labels :
    (addr n : ℕ) (labels : ReverseSymbols)
    → u16 addr ≡ addr
    → (l : Text) × (lookup addr (label_place addr (n, labels)).1.symbols ≡ some l)
unfolding label_place add_symbol
label_place-labels addr n labels h = elim (Option-cases (lookup addr labels.symbols)) [
  | inl new ↦ rw (new, h, label_place) (_, lookup-insert_self addr _ labels.symbols)
  | inr known ↦ rw (known.1, label_place) known
]

label_skip-keeps :
    (img : Image) (c : Code) (labels : ℕ × ReverseSymbols) (k : ℕ) (l : Text)
    → lookup k labels.1.symbols ≡ some l
    → lookup k (label_skip img c labels).1.symbols ≡ some l
unfolding label_skip label_target
label_skip-keeps img c labels k l e =
    elim (Bool-cases ((split_code c img.dsp).opcode == instr_skip)) [
      | inl skip ↦ rw (skip, label_skip) (label_place-keeps _ k labels.0 l labels.1 (omega arith) e)
      | inr other ↦ rw (other, label_skip) e
    ]

find_labels-keeps :
    (code : List Code) (img : Image) (labels : ℕ × ReverseSymbols) (k : ℕ) (l : Text)
    → lookup k labels.1.symbols ≡ some l
    → lookup k (find_labels code img labels).1.symbols ≡ some l
unfolding find_labels
find_labels-keeps [] img labels k l e = e
find_labels-keeps (c ∷ code) img labels k l e =
    find_labels-keeps code (use_registers c img) _ k l
      (label_skip-keeps (use_registers c img) c labels k l e)

-- The label of a place.
abbrev pub HasLabel : ReverseSymbols → ℕ → Type 0
HasLabel labels addr = (l : Text) × (lookup addr labels.symbols ≡ some l)

label_skip-labels :
    (img : Image) (c : Code) (labels : ℕ × ReverseSymbols)
    → (split_code c img.dsp).opcode ≡ instr_skip
    → HasLabel (label_skip img c labels).1 (jump img c)
unfolding label_skip label_target
label_skip-labels img c labels h =
    rw (h, label_skip) (label_place-labels _ labels.0 labels.1 (omega arith))

-- The first instruction of those that are left.
first-HasLabel :
    (img now : Image) (b c : Code) (labels : ℕ × ReverseSymbols)
    → Agrees img now
    → c ≡ b
    → (split_code c img.dsp).opcode ≡ instr_skip
    → HasLabel (label_skip now b labels).1 (jump img c)
first-HasLabel img now b c labels a same skip =
    let here : (split_code b now.dsp).opcode ≡ instr_skip =
      ap (λ d. (split_code b d).opcode) a.dsp
      ∙ (ap (λ x. (split_code x img.dsp).opcode) (sym same) ∙ skip) in
    let to : jump now b ≡ jump img c = jump-Agrees img now b a ∙ ap (jump img) (sym same) in
    rw (sym to) (label_skip-labels now b labels here)

find_labels-HasLabel :
    (code : List Code) (img now : Image) (labels : ℕ × ReverseSymbols) (i : ℕ) (c : Code)
    → Agrees img now
    → get_elem? code i ≡ some c
    → (split_code c img.dsp).opcode ≡ instr_skip
    → HasLabel (find_labels code now labels).1 (jump img c)
unfolding find_labels
find_labels-HasLabel [] img now labels i c a h skip = cc
find_labels-HasLabel (b ∷ code) img now labels zero c a h skip =
    let next = use_registers b now in
    let agrees = use_registers-Agrees img now b a in
    let (l, e) = first-HasLabel img next b c labels agrees (cc) skip in
    (l, find_labels-keeps code next (label_skip next b labels) (jump img c) l e)
find_labels-HasLabel (b ∷ code) img now labels (suc i) c a h skip =
    find_labels-HasLabel code img (use_registers b now) _ i c (use_registers-Agrees img now b a) h
      skip

-- The text of a skip to a place with a label.
un_asm-labelled :
    (img now : Image) (c : Code) (st labels : ReverseSymbols) (l : Text)
    → Agrees img now
    → lookup (jump img c) labels.symbols ≡ some l
    → (split_code c img.dsp).opcode ≡ instr_skip
    → un_asm now c st labels
      ≡ codes "SKIP "
        ++ (get_string st (split_code c img.dsp).r
            ++ (codes ", "
                ++ (get_string st (split_code c img.dsp).a
                    ++ (codes ", "
                        ++ (get_string st (split_code c img.dsp).x ++ (codes ", :" ++ l))))))
unfolding un_asm skip_target
un_asm-labelled img now c st labels l a e skip =
    let here : (split_code c now.dsp).opcode ≡ instr_skip =
      ap (λ d. (split_code c d).opcode) a.dsp ∙ skip in
    let found : lookup (jump now c) labels.symbols ≡ some l =
      ap (λ place. lookup place labels.symbols) (jump-Agrees img now c a) ∙ e in
    rw (un_asm, here, found, a.dsp) refl

-- The symbols that the loop starts with.
abbrev pub no_labels : ReverseSymbols → ReverseSymbols
no_labels st = record st { symbols = [] }

-- What is listed of a skip: the name of its operation, its first three operands and, behind a
-- colon, the label of the place where it goes to.
abbrev pub IsListed : Image → ReverseSymbols → Code → Text → Type 0
IsListed img st c l =
    let found = find_labels img.code img (0, no_labels st) in
    let f = split_code c img.dsp in
    (lookup (jump img c) found.1.symbols ≡ some l)
    × (un_asm found.0 c st found.1
        ≡ codes "SKIP "
          ++ (get_string st f.r
              ++ (codes ", "
                  ++ (get_string st f.a
                      ++ (codes ", " ++ (get_string st f.x ++ (codes ", :" ++ l)))))))

listed :
    (img : Image) (st : ReverseSymbols) (i : ℕ) (c : Code)
    → get_elem? img.code i ≡ some c
    → (split_code c img.dsp).opcode ≡ instr_skip
    → (l : Text) × IsListed img st c l
listed img st i c h skip =
    let start : Agrees img img = record { dsp = refl; value = λ x. refl } in
    let (l, e) = find_labels-HasLabel img.code img img (0, no_labels st) i c start h skip in
    (
      l,
      (
        e,
        un_asm-labelled img _ c st _ l (find_labels-Agrees img.code img img (0, no_labels st) start)
            e skip,
      ),
    )

pub un_asm-skip_label :
    (img : Image) (st : ReverseSymbols) (i j : ℕ) (c d : Code)
    → length img.code < 2 ^ 31
    → get_elem? img.code i ≡ some c
    → (split_code c img.dsp).opcode ≡ instr_skip
    → get_elem? img.code j ≡ some d
    → (split_code d img.dsp).opcode ≡ instr_skip
    → (l : Text) × (m : Text) × IsListed img st c l
      × IsListed img st d m
      × ((l ≡ m) ↔ (jump img c ≡ jump img d))
un_asm-skip_label img st i j c d small h skip h' skip' =
    let found = find_labels img.code img (0, no_labels st) in
    let (l, of_c) = listed img st i c h skip in
    let (m, of_d) = listed img st j d h' skip' in
    let nothing : Named (0, no_labels st) = record {
      number = λ a l at. cc;
      distinct = λ a b l at bt. cc;
    } in
    (
      l,
      m,
      of_c,
      of_d,
      (
        λ same.
            find_labels-distinct img.code img (0, no_labels st) (jump img c) (jump img d) l
              (omega arith) nothing of_c.0 (of_d.0 ∙ ap (λ x. some x) (sym same)),
        λ same.
            (let both : some l ≡ some m =
                sym of_c.0 ∙ (ap (λ x. lookup x found.1.symbols) same ∙ of_d.0) in
              cc),
      ),
    )
