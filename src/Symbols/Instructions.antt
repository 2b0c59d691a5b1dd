-- ===== src/Symbols/Instructions.antt =====
-- `emuInstruction`, `emuInstructionList` and `emuLabel`. Expressions are a type of their own.
use emufxtool.Base.{
  ℕ, Bool, true, false, Option, none, some, List, [], ◌∷◌, ◌++◌, length, get_elem?, ◌&&◌, ◌==◌,
  if◌then◌else◌,
}
use emufxtool.Base.Text.{Text}
use emufxtool.Words.{max_u32, u16}

module _ {ℓ} (E : Type ℓ) where
  -- An operand is `none` where its pointer is null.
  pub record Instruction : Type ℓ where
    pub op_code : ℕ
    pub r : Option E
    pub a : Option E
    pub x : Option E
    pub y : Option E
    pub pc : ℕ

module _ {ℓ} {E : Type ℓ} where
  abbrev pub new_instruction_of : ℕ → Option E → Option E → Option E → Option E → Instruction E
  new_instruction_of opcode r a x y = record {
    op_code = opcode;
    r = r;
    a = a;
    x = x;
    y = y;
    pc = 0;
  }

  unfoldable pub get_expr : Instruction E → ℕ → Option E
  get_expr i n =
      if n == 0
      then i.r
      else if n == 1
      then i.a
      else if n == 2
      then i.x
      else if n == 3
      then i.y
      else none

  abbrev pub is_there : Option E → Bool
  is_there none = false
  is_there (some e) = true

  unfoldable pub is_valid : Instruction E → Bool
  is_valid i = is_there i.r && (is_there i.a && (is_there i.x && is_there i.y))

  unfoldable pub set_pc : ℕ → Instruction E → Instruction E
  set_pc pc i = record i { pc = u16 pc }

  -- A null pointer would be ignored; here there is an instruction.
  unfoldable pub add_instruction : Instruction E → List (Instruction E) → List (Instruction E)
  add_instruction i code = code ++ record i { pc = length code } ∷ []

-- `I` is the pointer to an instruction, as its place in the list.
pub record Label : Type 0 where
  pub symbol : Text
  pub instruction : Option ℕ

abbrev pub new_label : Text → Label
new_label sym = record { symbol = sym; instruction = none }

unfoldable pub set_instruction : ℕ → Label → Label
set_instruction place l = record l { instruction = some place }

unfoldable pub has_instruction : Label → Bool
has_instruction l = elim l.instruction [ none ↦ false | some _ ↦ true ]

module _ {ℓ} {E : Type ℓ} where
  -- `emuLabel::getPC`, and `emuLabel::getValue`, which does the same.
  unfoldable pub get_label_pc : Label → List (Instruction E) → ℕ
  get_label_pc l code = elim l.instruction [
    | none ↦ max_u32
    | some place ↦ elim (get_elem? code place) [ none ↦ max_u32 | some i ↦ i.pc ]
  ]
