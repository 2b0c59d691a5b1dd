-- ===== src/Compiler/Encoding.antt =====
-- The code of a program, instruction by instruction, and the theorem on `compile`.
use mathlib.Core.List.{append_assoc, append-nil}
use emufxtool.Base.{
  ℕ, ◌+◌, ◌^◌, ◌≤◌, ◌<◌, ◌≡◌, refl, sym, ap, ◌∙◌, Option, none, some, List, [], ◌∷◌, ◌++◌, arith,
  inl, inr, Option-cases, length, length-append,
}
use emufxtool.Words.{u16}
use emufxtool.Symbols.Instructions.{Instruction}
use emufxtool.Dsp.{Fields}
use emufxtool.Image.Data.{Code, Image}
use emufxtool.Image.Constants.{IsCoherent}
use emufxtool.Image.Operations.{new_code, new_instruction}
use emufxtool.Compiler.Objects.{Operand, Program}
use emufxtool.Compiler.Assemble.{compile_operand, compile_instruction, compile_code}
use emufxtool.Compiler.Growth.{
  Grows-refl, Grows-trans, Carries, Carries-trans, Grows-Carries, new_instruction-Carries,
}
use emufxtool.Compiler.Laws.{IsInstruction, AreInstructions, Operates, compile_operand-Operated}

abbrev pub HaveShortPc : List (Instruction Operand) → Type 0
HaveShortPc [] = Unit
HaveShortPc (i ∷ is) = (i.pc < 2 ^ 16) × HaveShortPc is

module _ (limit : ℕ) (small : limit ≤ 2 ^ 16) where
  -- What the compilation of an instruction does.
  record Encodes (p : Program) (i : Instruction Operand) (img img' : Image) : Type 0 where
    carries : Carries limit small img img'
    code : Code
    appended : img'.code ≡ img.code ++ code ∷ []
    means :
        (final : Image)
        → Carries limit small img' final
        → IsCoherent final
        → final.current_gpr ≤ limit
        → IsInstruction final p (length img.code) i code

  abbrev Encoded : Program → Instruction Operand → Image → Option Image → Type 0
  Encoded p i img none = Unit
  Encoded p i img (some img') = Encodes p i img img'

  -- Four operands that are compiled one after the other, and the instruction with them.
  four-Encodes :
      (p : Program) (i : Instruction Operand) (img : Image) (r a x y : ℕ) (i1 i2 i3 i4 : Image)
      → Operates limit small p i.pc i.r img (r, i1)
      → Operates limit small p i.pc i.a i1 (a, i2)
      → Operates limit small p i.pc i.x i2 (x, i3)
      → Operates limit small p i.pc i.y i3 (y, i4)
      → Encodes p i img
          (new_instruction i4 (record { opcode = i.op_code; r = r; a = a; x = x; y = y })).1
  unfolding new_instruction
  four-Encodes p i img r a x y i1 i2 i3 i4 or oa ox oy =
      let f : Fields = record { opcode = i.op_code; r = r; a = a; x = x; y = y } in
      let end = new_instruction-Carries limit small i4 f in
      let from3 = Grows-Carries limit small oy.grows in
      let from2 = Grows-trans limit small ox.grows oy.grows in
      let from1 = Grows-trans limit small oa.grows from2 in
      let all = Grows-trans limit small or.grows from1 in
      record {
        carries = Carries-trans limit small (Grows-Carries limit small all) end;
        code = new_code (u16 (length i4.code)) f i4.dsp;
        appended = ap (λ c. c ++ new_code (u16 (length i4.code)) f i4.dsp ∷ []) all.same_code;
        means = λ final later coherent below.
            let rest = Carries-trans limit small end later in
            record {
              fields = f;
              packed = rw (all.same_code, later.same_dsp) refl;
              operation = refl;
              on_r =
                  or.means final (Carries-trans limit small (Grows-Carries limit small from1) rest)
                    coherent below;
              on_a =
                  oa.means final (Carries-trans limit small (Grows-Carries limit small from2) rest)
                    coherent below;
              on_x = ox.means final (Carries-trans limit small from3 rest) coherent below;
              on_y = oy.means final rest coherent below;
            };
      }

  compile_instruction-Encoded :
      (p : Program) (i : Instruction Operand) (img : Image)
      → i.pc < 2 ^ 16
      → Encoded p i img (compile_instruction p i img)
  unfolding compile_instruction
  compile_instruction-Encoded p i img h =
      let operated =
        λ (o : Option Operand) (g : Image). compile_operand-Operated limit small p i.pc o g h in
      elim (Option-cases (compile_operand p i.pc i.r img)) [
        | inl trap ↦ rw trap tt
        | inr ((r, i1), e1) ↦ elim (Option-cases (compile_operand p i.pc i.a i1)) [
          | inl trap ↦ rw (e1, trap) tt
          | inr ((a, i2), e2) ↦ elim (Option-cases (compile_operand p i.pc i.x i2)) [
            | inl trap ↦ rw (e1, e2, trap) tt
            | inr ((x, i3), e3) ↦ elim (Option-cases (compile_operand p i.pc i.y i3)) [
              | inl trap ↦ rw (e1, e2, e3, trap) tt
              | inr ((y, i4), e4) ↦
                  rw (e1, e2, e3, e4)
                    (four-Encodes p i img r a x y i1 i2 i3 i4 (rw e1 at (operated i.r img))
                      (rw e2 at (operated i.a i1)) (rw e3 at (operated i.x i2))
                      (rw e4 at (operated i.y i3)))
            ]
          ]
        ]
      ]

  -- The same of a list of instructions.
  pub record EncodesAll (p : Program) (is : List (Instruction Operand)) (img img' : Image)
      : Type 0 where
    pub carries : Carries limit small img img'
    pub codes : List Code
    pub appended : img'.code ≡ img.code ++ codes
    pub means :
        (final : Image)
        → Carries limit small img' final
        → IsCoherent final
        → final.current_gpr ≤ limit
        → AreInstructions final p (length img.code) is codes

  abbrev pub EncodedAll : Program → List (Instruction Operand) → Image → Option Image → Type 0
  EncodedAll p is img none = Unit
  EncodedAll p is img (some img') = EncodesAll p is img img'

  EncodesAll-cons :
      (p : Program) (i : Instruction Operand) (is : List (Instruction Operand)) (a b c : Image)
      → Encodes p i a b
      → EncodesAll p is b c
      → EncodesAll p (i ∷ is) a c
  EncodesAll-cons p i is a b c first rest = record {
    carries = Carries-trans limit small first.carries rest.carries;
    codes = first.code ∷ rest.codes;
    appended =
        rest.appended
        ∙ ap (λ t. t ++ rest.codes) first.appended
        ∙ append_assoc a.code (first.code ∷ []) rest.codes;
    means = λ final later coherent below.
        let next : length b.code ≡ length a.code + 1 =
          ap length first.appended ∙ length-append a.code (first.code ∷ []) ∙ omega arith in
        (
          first.means final (Carries-trans limit small rest.carries later) coherent below,
          rw next at (rest.means final later coherent below),
        );
  }

  EncodesAll-nil : (p : Program) (img : Image) → EncodesAll p [] img img
  EncodesAll-nil p img = record {
    carries = Grows-Carries limit small (Grows-refl limit small img);
    codes = [];
    appended = sym (append-nil img.code);
    means = λ final later coherent below. tt;
  }

  pub compile_code-EncodedAll :
      (p : Program) (is : List (Instruction Operand)) (img : Image)
      → HaveShortPc is
      → EncodedAll p is img (compile_code p is img)
  unfolding compile_code
  compile_code-EncodedAll p [] img h = EncodesAll-nil p img
  compile_code-EncodedAll p (i ∷ is) img h = elim (Option-cases (compile_instruction p i img)) [
    | inl trap ↦ rw (trap, compile_code) tt
    | inr (img', done) ↦ elim (Option-cases (compile_code p is img')) [
      | inl trap ↦ rw (done, compile_code, trap) tt
      | inr (img'', rest) ↦
          rw (done, compile_code, rest)
            (EncodesAll-cons p i is img img' img''
              (rw done at (compile_instruction-Encoded p i img h.0))
              (rw rest at (compile_code-EncodedAll p is img' h.1)))
    ]
  ]
