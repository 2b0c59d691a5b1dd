-- ===== src/Compiler/Laws.antt =====
-- What the code of a compiled program holds.
use Prim.Native.Nat.{bit_and}
use emufxtool.Base.{
  ℕ, ◌+◌, ◌%◌, ◌^◌, ◌≤◌, ◌<◌, ◌≡◌, refl, true, false, Option, none, some, List, [], ◌∷◌, arith, inl,
  inr, Option-cases, Bool-cases, ltb, length, if◌then◌else◌,
}
use emufxtool.Base.Table.{nat_key}
use emufxtool.Words.{u16, is_set, sub32}
use emufxtool.Flags.{v_address, v_label}
use emufxtool.Symbols.Instructions.{Instruction}
use emufxtool.Expression.Trees.{Expression, eval, eval_flags, emuop_flag_address}
use emufxtool.Dsp.{Fields}
use emufxtool.Image.Data.{Code, Image}
use emufxtool.Image.Constants.{IsCoherent}
use emufxtool.Image.Operations.{new_code, map_constant, get_value}
use emufxtool.Compiler.Objects.{Operand, Program, resolve}
use emufxtool.Compiler.Assemble.{operand_value, operand_address, compile_operand}
use emufxtool.Compiler.Growth.{Grows, Grows-refl, Carries, map_constant-Maps}

-- What the address `a` in the code means for an operand of the instruction `pc`: the address that
-- the operand has; or a place that holds the value of the operand; or one that holds the distance
-- from the instruction behind `pc` to the label, or to the end where the label has no instruction.
pub data IsOperand (img : Image) (p : Program) (pc a : ℕ) : Option Operand → Type 0 where
  addressed :
      {o : Operand}
      → (e : Expression) (v : ℕ) → resolve p o ≡ some e
      → is_set (bit_and (eval_flags 0 e) v_address) ≡ true
      → eval emuop_flag_address e ≡ some v
      → a ≡ u16 v
      → IsOperand img p pc a (some o)
  valued :
      {o : Operand}
      → (e : Expression) (v : ℕ) → resolve p o ≡ some e
      → is_set (bit_and (eval_flags 0 e) v_address) ≡ false
      → is_set (bit_and (eval_flags 0 e) v_label) ≡ false
      → eval 0 e ≡ some v
      → get_value img a ≡ v
      → IsOperand img p pc a (some o)
  distant :
      {o : Operand}
      → (e : Expression) (v : ℕ) → resolve p o ≡ some e
      → is_set (bit_and (eval_flags 0 e) v_address) ≡ false
      → is_set (bit_and (eval_flags 0 e) v_label) ≡ true
      → eval 0 e ≡ some v
      → (pc + 1 + get_value img a) % 2 ^ 32
        ≡ (if ltb (length p.ilist) v then length p.ilist else v) % 2 ^ 32
      → IsOperand img p pc a (some o)

-- An instruction in the code, the `n`-th.
pub record IsInstruction (img : Image) (p : Program) (n : ℕ) (i : Instruction Operand) (c : Code)
    : Type 0 where
  pub fields : Fields
  pub packed : c ≡ new_code (u16 n) fields img.dsp
  pub operation : fields.opcode ≡ i.op_code
  pub on_r : IsOperand img p i.pc fields.r i.r
  pub on_a : IsOperand img p i.pc fields.a i.a
  pub on_x : IsOperand img p i.pc fields.x i.x
  pub on_y : IsOperand img p i.pc fields.y i.y

-- The instructions from the `n`-th on, one by one.
abbrev pub AreInstructions : Image → Program → ℕ → List (Instruction Operand) → List Code → Type 0
AreInstructions img p n [] [] = Unit
AreInstructions img p n [] (c ∷ cs) = ⊥
AreInstructions img p n (i ∷ is) [] = ⊥
AreInstructions img p n (i ∷ is) (c ∷ cs) =
    IsInstruction img p n i c × AreInstructions img p (n + 1) is cs

distance_lem :
    (target pc : ℕ) → pc < 2 ^ 16 → (pc + 1 + sub32 (sub32 target pc) 1) % 2 ^ 32 ≡ target % 2 ^ 32
distance_lem target pc h = omega arith

module _ (limit : ℕ) (small : limit ≤ 2 ^ 16) where
  -- What an operand's compilation does; `final` is the image in the end.
  pub record Operates (p : Program) (pc : ℕ) (o : Option Operand) (img : Image) (result : ℕ × Image)
      : Type 0 where
    pub grows : Grows limit small img result.1
    pub means :
        (final : Image)
        → Carries limit small result.1 final
        → IsCoherent final
        → final.current_gpr ≤ limit
        → IsOperand final p pc result.0 o

  abbrev pub Operated : Program → ℕ → Option Operand → Image → Option (ℕ × Image) → Type 0
  Operated p pc o img none = Unit
  Operated p pc o img (some result) = Operates p pc o img result

  -- A mapped constant, read in the end.
  mapped_value :
      (img final : Image) (v : ℕ)
      → Carries limit small (map_constant img v).1 final
      → IsCoherent final
      → final.current_gpr ≤ limit
      → get_value final (u16 (map_constant img v).0) ≡ v
  mapped_value img final v carries coherent below =
      let addr = (map_constant img v).0 in
      let known =
        carries.constants v addr
          ((map_constant-Maps limit small img v).mapped (omega (arith, carries.gpr))) in
      let fits : u16 addr ≡ addr = omega (arith, coherent.below v addr known, small) in
      rw fits (coherent.agrees v addr known)

  -- An expression without an address, by its value.
  mapped-Operates :
      (p : Program) (pc : ℕ) (o : Operand) (img : Image) (v : ℕ)
      → ((final : Image) (a : ℕ) → get_value final a ≡ v → IsOperand final p pc a (some o))
      → Operates p pc (some o) img (u16 (map_constant img v).0, (map_constant img v).1)
  mapped-Operates p pc o img v means = record {
    grows = (map_constant-Maps limit small img v).grows;
    means = λ final carries coherent below.
        means final _ (mapped_value img final v carries coherent below);
  }

  unaddressed-Operated :
      (p : Program) (pc : ℕ) (o : Operand) (img : Image) (e : Expression)
      → pc < 2 ^ 16
      → resolve p o ≡ some e
      → is_set (bit_and (eval_flags 0 e) v_address) ≡ false
      → Operated p pc (some o) img (operand_address (length p.ilist) pc e img)
  unfolding operand_address operand_value
  unaddressed-Operated p pc o img e h known bare = elim (Option-cases (eval 0 e)) [
    | inl trap ↦ rw (bare, operand_address, trap) tt
    | inr (v, value) ↦ elim (Bool-cases (is_set (bit_and (eval_flags 0 e) v_label))) [
      | inr plain ↦
          rw (bare, operand_address, value, plain)
            (mapped-Operates p pc o img v
              (λ final a holds. valued e v known bare plain value holds))
      | inl is_label ↦
          let target = if ltb (length p.ilist) v then length p.ilist else v in
          rw (bare, operand_address, value, is_label)
            (mapped-Operates p pc o img (sub32 (sub32 target pc) 1) (λ final a holds.
              distant e v known bare is_label value (rw holds (distance_lem target pc h))))
    ]
  ]

  pub compile_operand-Operated :
      (p : Program) (pc : ℕ) (o : Option Operand) (img : Image)
      → pc < 2 ^ 16
      → Operated p pc o img (compile_operand p pc o img)
  unfolding compile_operand operand_address
  compile_operand-Operated p pc none img h = tt
  compile_operand-Operated p pc (some o) img h = elim (Option-cases (resolve p o)) [
    | inl dangling ↦ rw (dangling, compile_operand) tt
    | inr (e, known) ↦ elim (Bool-cases (is_set (bit_and (eval_flags 0 e) v_address))) [
      | inr bare ↦ rw (known, compile_operand) (unaddressed-Operated p pc o img e h known bare)
      | inl placed ↦ elim (Option-cases (eval emuop_flag_address e)) [
        | inl trap ↦ rw (known, compile_operand, placed, trap) tt
        | inr (v, value) ↦
            rw (known, compile_operand, placed, value)
              (record {
                grows = Grows-refl limit small img;
                means = λ final carries coherent below. addressed e v known placed value refl;
              })
      ]
    ]
  ]
