-- ===== src/Symbols/InstructionLaws.antt =====
-- Instructions are numbered by their place, and a label has the number of its instruction.
use emufxtool.Base.{
  ℕ, zero, suc, ◌+◌, ◌≡◌, ◌<◌, refl, sym, ap, ◌∙◌, Bool-cases, inl, inr, Option, none, some, List,
  [], ◌∷◌, ◌++◌, length, length-append, get_elem?, arith, if◌then◌else◌, ◌==◌,
}
use emufxtool.Symbols.Instructions.{
  Instruction, add_instruction, Label, set_instruction, get_label_pc,
}

module _ {E : Type 0} where
  -- Every instruction has its place for its number.
  abbrev pub IsNumbered : List (Instruction E) → Type 0
  IsNumbered code = (n : ℕ) (i : Instruction E) → get_elem? code n ≡ some i → i.pc ≡ n

  get_elem?-snoc :
      (xs : List (Instruction E)) (x : Instruction E) (n : ℕ)
      → get_elem? (xs ++ x ∷ []) n ≡ (if n == length xs then some x else get_elem? xs n)
  get_elem?-snoc [] x zero = refl
  get_elem?-snoc [] x (suc n) = ground arith
  get_elem?-snoc (y ∷ xs) x zero = ground arith
  get_elem?-snoc (y ∷ xs) x (suc n) = ground (arith, get_elem?-snoc xs x n)

  pc_of : Option (Instruction E) → ℕ
  pc_of none = 0
  pc_of (some i) = i.pc

  number_of :
      (code : List (Instruction E)) (new : Instruction E) (n : ℕ) (j : Instruction E)
      → (get_elem? code n ≡ some j → j.pc ≡ n)
      → (if n == length code then some new else get_elem? code n) ≡ some j
      → new.pc ≡ length code
      → j.pc ≡ n
  unfolding pc_of
  number_of code new n j known h last = elim (Bool-cases (n == length code)) [
    | inl here ↦
        let found : some new ≡ some j = rw here at h in
        sym (ap pc_of found) ∙ (last ∙ ground (arith, here))
    | inr before ↦ known (rw before at h)
  ]

  -- In a numbered list an added instruction comes last, with the next number and with the
  -- operation and the four operands that it has, the list stays numbered, and every other
  -- instruction is where and as it was; a label that is set to the new one has its number, and a
  -- label of another the number that it had.
  pub add_instruction-IsNumbered :
      (code : List (Instruction E)) (i : Instruction E) (l : Label)
      → IsNumbered code
      → let code' = add_instruction i code in
        IsNumbered code'
        × (length code' ≡ length code + 1)
        × (get_label_pc (set_instruction (length code) l) code' ≡ length code)
        × ((n : ℕ)
            → n < length code
            → get_label_pc (set_instruction n l) code' ≡ get_label_pc (set_instruction n l) code)
        × (get_elem? code' (length code)
            ≡ some (record {
              op_code = i.op_code;
              r = i.r;
              a = i.a;
              x = i.x;
              y = i.y;
              pc = length code;
            }))
        × ((n : ℕ) → n < length code → get_elem? code' n ≡ get_elem? code n)
  unfolding add_instruction get_label_pc set_instruction
  add_instruction-IsNumbered code i l numbered =
      let new : Instruction E = record i { pc = length code } in
      (
        λ n j h. number_of code new n j (numbered n j) (sym (get_elem?-snoc code new n) ∙ h) refl,
        length-append code (new ∷ []),
        ground (arith, get_elem?-snoc code new (length code)),
        λ n h. ground (arith, h, get_elem?-snoc code new n),
        ground (arith, get_elem?-snoc code new (length code)),
        λ n h. ground (arith, h, get_elem?-snoc code new n),
      )
