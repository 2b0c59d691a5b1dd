-- ===== src/Parser/Keeps/Changes.antt =====
-- The changes of a program keep it closed.
use emufxtool.Base.{
  ℕ, suc, ◌==◌, true, false, ◌⊎◌, sym, ap, ◌≡◌, refl, ◌∙◌, Bool-cases, Option-cases, inl, inr,
  Option, none, some, List, [], ◌∷◌, ◌++◌, length, length-append, length-set, arith,
}
use emufxtool.Base.Text.{Text, text_key}
use emufxtool.Base.Table.{nat_key, Table, lookup, lookup-insert, insert}
use emufxtool.Symbols.Initializers.{Initializer}
use emufxtool.Symbols.Instructions.{Instruction, new_label, add_instruction}
use emufxtool.Symbols.InstructionLaws.{IsNumbered, add_instruction-IsNumbered}
use emufxtool.Compiler.Objects.{Operand, Element, Store, initializer, Program, update}
use emufxtool.Parser.Program.{point_labels}
use emufxtool.Parser.Reading.{delete}
use emufxtool.Parser.Keeps.Inside.{
  IsLive, PointsInside, ElementsInside, IsClosed, Kept, AllInside-snoc, ElementsInside-snoc,
  ElementsInside-set, ElementsInside-weaken, object-set_other, IsLive-snoc, IsLive-last,
  IsLive-length, set-Kept, point_labels-Kept,
}

length-delete : (o : Option ℕ) (es : Store) → length (delete o es) ≡ length es
length-delete none es = refl
length-delete (some k) es = length-set es k none

delete-Inside :
    (n : ℕ) (o : Option ℕ) (es : Store) → ElementsInside n es → ElementsInside n (delete o es)
delete-Inside n none es p = p
delete-Inside n (some k) es p = ElementsInside-set n es k none p tt

-- Deleting what a name stands for leaves what other names stand for.
delete-IsLive :
    (p : Program) (name a : Text) (k : ℕ)
    → IsClosed p
    → (text_key.beq name a) ≡ false
    → lookup a p.symtab ≡ some k
    → IsLive (delete (lookup name p.symtab) p.elements) k
delete-IsLive p name a k c other at = elim (Option-cases (lookup name p.symtab)) [
  | inl new ↦ rw (new, delete) (c.named a k at)
  | inr (j, old) ↦ elim (Bool-cases (j == k)) [
    | inl same ↦ absurd (clash j old same)
    | inr apart ↦
        let (e, found) = c.named a k at in
        rw (old, delete) (e, object-set_other p.elements j k none apart ∙ found)
  ]
]
  where
    clash : (j : ℕ) → lookup name p.symtab ≡ some j → (j == k) ≡ true → ⊥
    clash j old same =
        let e : j ≡ k = (nat_key.beq_iff j k).0 same in
        let n : name ≡ a = c.distinct name a k (old ∙ ap (λ x. some x) e) at in
        let t = (text_key.beq_iff name a).1 n in cc

-- What a name stands for behind a new entry.
looked_up :
    (name a : Text) (k n : ℕ) (t : Table Text ℕ)
    → lookup a (insert name n t) ≡ some k
    → ((name ≡ a) × (n ≡ k)) ⊎ (lookup a t ≡ some k)
looked_up name a k n t at = elim (Bool-cases (text_key.beq name a)) [
  | inl is ↦
      let here : some n ≡ some k = rw is at (sym (lookup-insert name a n t) ∙ at) in
      inl ((text_key.beq_iff name a).0 is, cc)
  | inr other ↦ inr (rw other at (sym (lookup-insert name a n t) ∙ at))
]

-- A new element, with its pointer in the list and in the table, and the old one deleted.
pub add-IsClosed :
    (p : Program) (name : Text) (e : Element)
    → PointsInside (length p.ilist) e
    → IsClosed p
    → IsClosed (record p {
      elements = delete (lookup name p.symtab) p.elements ++ some e ∷ [];
      symtab = insert name (length p.elements) p.symtab;
      symlist = p.symlist ++ length p.elements ∷ [];
    })
add-IsClosed p name e h c =
    let es = delete (lookup name p.symtab) p.elements in
    let same : length es ≡ length p.elements = length-delete (lookup name p.symtab) p.elements in
    let longer : length (es ++ some e ∷ []) ≡ suc (length p.elements) =
      omega (arith, length-append es (some e ∷ []), same) in
    record {
      listed = rw longer (AllInside-snoc _ _ p.symlist (omega arith) c.listed);
      named = λ a k at. elim (Bool-cases (text_key.beq name a)) [
        | inl is ↦
            let here : some (length p.elements) ≡ some k =
              rw is at (sym (lookup-insert name a (length p.elements) p.symtab) ∙ at) in
            let place : length es ≡ k = cc in rw (sym place) (IsLive-last es e)
        | inr other ↦
            let before : lookup a p.symtab ≡ some k =
              rw other at (sym (lookup-insert name a (length p.elements) p.symtab) ∙ at) in
            IsLive-snoc es k e (delete-IsLive p name a k c other before)
      ];
      distinct = λ a b k ha hb. elim (looked_up name a k (length p.elements) p.symtab ha) [
        | inl (is_a, new) ↦ elim (looked_up name b k (length p.elements) p.symtab hb) [
          | inl (is_b, new') ↦ sym is_a ∙ is_b
          | inr old ↦ absurd (fresh b k old new)
        ]
        | inr old ↦ elim (looked_up name b k (length p.elements) p.symtab hb) [
          | inl (is_b, new) ↦ absurd (fresh a k old new)
          | inr old' ↦ c.distinct a b k old old'
        ]
      ];
      placed =
          ElementsInside-snoc _ es e (delete-Inside _ (lookup name p.symtab) p.elements c.placed) h;
      numbered = c.numbered;
    }
  where
    fresh : (a : Text) (k : ℕ) → lookup a p.symtab ≡ some k → length p.elements ≡ k → ⊥
    fresh a k old new = absurd (omega (arith, IsLive-length p.elements k (c.named a k old), new))

-- Elements that are changed.
Kept-IsClosed :
    (p : Program) (es : Store) (code : List (Instruction Operand))
    → Kept (length code) p.elements es
    → IsNumbered code
    → IsClosed p
    → IsClosed (record p { elements = es; ilist = code })
Kept-IsClosed p es code kept numbered c = record {
  listed = rw (kept.same_length) c.listed;
  named = λ a k at. kept.live k (c.named a k at);
  distinct = c.distinct;
  placed = kept.inside;
  numbered = numbered;
}

pub update-IsClosed :
    (p : Program) (pointer : ℕ) (i : Initializer) → IsClosed p → IsClosed (update pointer i p)
unfolding update
update-IsClosed p pointer i c =
    Kept-IsClosed p _ p.ilist (set-Kept _ p.elements pointer (initializer i) tt c.placed) c.numbered
      c

-- Labels that lose their instruction.
pub point_labels-IsClosed :
    (p : Program) (pointers : List ℕ) (es : Store)
    → point_labels none pointers p.elements ≡ some es
    → IsClosed p
    → IsClosed (record p { elements = es })
point_labels-IsClosed p pointers es done c =
    Kept-IsClosed p es p.ilist
      (rw done at (point_labels-Kept (length p.ilist) none pointers p.elements tt c.placed))
      c.numbered c

-- An added instruction, and labels that get it.
pub append-IsClosed :
    (p : Program) (pointers : List ℕ) (i : Instruction Operand) (es : Store)
    → point_labels (some (length p.ilist)) pointers p.elements ≡ some es
    → IsClosed p
    → IsClosed (record p { elements = es; ilist = add_instruction i p.ilist })
append-IsClosed p pointers i es done c =
    let (numbered, longer, label_pc, others, last, same) =
      add_instruction-IsNumbered p.ilist i (new_label []) c.numbered in
    let longer' : length (add_instruction i p.ilist) ≡ suc (length p.ilist) =
      omega (arith, longer) in
    let kept : Kept (suc (length p.ilist)) p.elements es = rw done at (
      point_labels-Kept (suc (length p.ilist)) (some (length p.ilist)) pointers p.elements
        (omega arith) (ElementsInside-weaken _ p.elements c.placed)) in
    Kept-IsClosed p es (add_instruction i p.ilist) (rw longer' kept) numbered c
