-- ===== src/Compiler/Compiled.antt =====
-- `compile` as a whole.
use emufxtool.Base.{
  ℕ, ◌+◌, ◌^◌, ◌≤◌, ◌≡◌, refl, ap, ◌∙◌, Option, none, some, List, [], ◌∷◌, ◌++◌, arith, inl, inr,
  Option-cases, Bool-cases, length, if◌then◌else◌,
}
use emufxtool.Base.Text.{Text, c_string}
use emufxtool.Base.Table.{Table}
use Prim.Native.Nat.{bit_and}
use emufxtool.Words.{is_set, u16}
use emufxtool.Flags.{v_private, v_address, v_array}
use emufxtool.Symbols.Initializers.{Initializer, get_address}
use emufxtool.Symbols.Instructions.{Instruction, set_pc}
use emufxtool.Image.Data.{Code, Image}
use emufxtool.Image.Constants.{IsCoherent}
use emufxtool.Compiler.Objects.{
  object, Operand, initializer, label, Program, as_initializer, update,
}
use emufxtool.Compiler.Allocate.{ref_address, allocate, allocate_all}
use emufxtool.Compiler.Assemble.{number_from, compile_code, export_symbol, export_symbols, compile}
use emufxtool.Compiler.Growth.{
  Grows, Grows-refl, Grows-trans, Carries-trans, Grows-Carries, new_export-Grows,
}
use emufxtool.Compiler.Operands.{Grown, allocate_all-Grown}
use emufxtool.Compiler.Laws.{AreInstructions}
use emufxtool.Compiler.Encoding.{HaveShortPc, EncodesAll, compile_code-EncodedAll}

-- Allocation changes initializers, and no instruction and no name.
abbrev SameNames : Program → Option (Program × Image) → Type 0
SameNames p none = Unit
SameNames p (some s) = (s.0.ilist ≡ p.ilist) × (s.0.symtab ≡ p.symtab)

allocate-SameNames :
    (pointer : ℕ) (p : Program) (img : Image) → SameNames p (allocate pointer (p, img))
unfolding allocate update
allocate-SameNames pointer p img = elim (Option-cases (object p.elements pointer)) [
  | inl e ↦ rw (e, allocate) tt
  | inr (label l, e) ↦ rw (e, allocate) (refl, refl)
  | inr (initializer i, e) ↦ elim (Bool-cases (is_set (bit_and i.flags v_address))) [
    | inl placed ↦ rw (e, allocate, placed) (refl, refl)
    | inr open_place ↦ elim (Option-cases (ref_address p i)) [
      | inl dangling ↦ rw (e, allocate, open_place, dangling) tt
      | inr (ref, found) ↦ rw (e, allocate, open_place, found) (refl, refl)
    ]
  ]
]

allocate_all-SameNames :
    (pointers : List ℕ) (p : Program) (img : Image) → SameNames p (allocate_all pointers (p, img))
unfolding allocate_all
allocate_all-SameNames [] p img = (refl, refl)
allocate_all-SameNames (pointer ∷ pointers) p img =
    elim (Option-cases (allocate pointer (p, img))) [
      | inl trap ↦ rw (trap, allocate_all) tt
      | inr ((p', img'), done) ↦
          let first : SameNames p (some (p', img')) =
            rw done at (allocate-SameNames pointer p img) in
          elim (Option-cases (allocate_all pointers (p', img'))) [
            | inl trap ↦ rw (done, allocate_all, trap) tt
            | inr (s, more) ↦
                let rest : SameNames p' (some s) =
                  rw more at (allocate_all-SameNames pointers p' img') in
                rw (done, allocate_all, more) (rest.0 ∙ first.0, rest.1 ∙ first.1)
          ]
    ]

number_from-HaveShortPc :
    (pc : ℕ) (is : List (Instruction Operand)) → HaveShortPc (number_from pc is)
unfolding number_from set_pc
number_from-HaveShortPc pc [] = tt
number_from-HaveShortPc pc (i ∷ is) = (omega arith, number_from-HaveShortPc (pc + 1) is)

module _ (limit : ℕ) (small : limit ≤ 2 ^ 16) where
  export_symbol-Grows :
      (name : Text) (i : Initializer) (img : Image)
      → Grows limit small img (export_symbol name i img)
  unfolding export_symbol
  export_symbol-Grows name i img = elim (Bool-cases (is_set (bit_and i.flags v_private))) [
    | inl hidden ↦ rw hidden (Grows-refl limit small img)
    | inr public ↦
        let count = if is_set (bit_and i.flags v_array) then u16 i.length else 1 in
        rw public
          (new_export-Grows limit small img (c_string name) i.flags (u16 (get_address i 0)) count)
  ]

  abbrev Exported : Image → Option Image → Type 0
  Exported img none = Unit
  Exported img (some img') = Grows limit small img img'

  export_symbols-Exported :
      (p : Program) (symbols : Table Text ℕ) (img : Image)
      → Exported img (export_symbols p symbols img)
  unfolding export_symbols
  export_symbols-Exported p [] img = Grows-refl limit small img
  export_symbols-Exported p ((name, pointer) ∷ symbols) img =
      elim (Option-cases (object p.elements pointer)) [
        | inl dangling ↦ rw (dangling, export_symbols) tt
        | inr (e, found) ↦
            let img1 = export_symbol name (as_initializer p.ilist e) img in
            elim (Option-cases (export_symbols p symbols img1)) [
              | inl trap ↦ rw (found, export_symbols, trap) tt
              | inr (img', rest) ↦
                  rw (found, export_symbols, rest)
                    (Grows-trans limit small
                      (export_symbol-Grows name (as_initializer p.ilist e) img)
                      (rw rest at (export_symbols-Exported p symbols img1)))
            ]
      ]

-- What a compiled program is. `p'` and `img'` come out of `compile`.
pub record IsCompiled (p : Program) (img : Image) (p' : Program) (img' : Image) : Type 0 where
  pub coherent : IsCoherent img'
  pub numbered : p'.ilist ≡ number_from 0 p.ilist
  pub codes : List Code
  pub appended : img'.code ≡ img.code ++ codes
  pub instructions : AreInstructions img' p' (length img.code) p'.ilist codes

module _ (limit : ℕ) (small : limit ≤ 2 ^ 16) (p p1 p2 : Program)
    (img allocated coded img' : Image) where
  compiled_lem :
      p1 ≡ record p { ilist = number_from 0 p.ilist }
      → Grown limit small img (some (p2, allocated))
      → SameNames p1 (some (p2, allocated))
      → EncodesAll limit small p2 p2.ilist allocated coded
      → Grows limit small coded img'
      → IsCoherent img
      → limit ≤ img.current_line
      → img'.current_gpr ≤ limit
      → IsCompiled p img p2 img'
  compiled_lem start first names code last coherent room below =
      let to_coded = Carries-trans limit small (Grows-Carries limit small first) code.carries in
      let all = Carries-trans limit small to_coded (Grows-Carries limit small last) in
      let ok_end = all.coherent below room coherent in
      record {
        coherent = ok_end;
        numbered = names.0 ∙ ap (λ q. q.ilist) start;
        codes = code.codes;
        appended = last.same_code ∙ code.appended ∙ ap (λ t. t ++ code.codes) first.same_code;
        instructions =
            rw (ap length first.same_code) at
              (code.means img' (Grows-Carries limit small last) ok_end below);
      }

abbrev MayBeCompiled : Program → Image → Option (Program × Image) → Type 0
MayBeCompiled p img none = Unit
MayBeCompiled p img (some s) = s.1.current_gpr ≤ img.current_line → IsCompiled p img s.0 s.1

compile-MayBeCompiled :
    (p : Program) (img : Image)
    → IsCoherent img
    → img.current_line ≤ 2 ^ 16
    → MayBeCompiled p img (compile p img)
unfolding compile
compile-MayBeCompiled p img coherent small =
    let limit = img.current_line in
    let p1 : Program = record p { ilist = number_from 0 p.ilist } in
    elim (Option-cases (allocate_all p.symlist (p1, img))) [
      | inl trap ↦ rw trap tt
      | inr ((p2, allocated), e1) ↦ elim (Option-cases (compile_code p2 p2.ilist allocated)) [
        | inl trap ↦ rw (e1, trap) tt
        | inr (coded, e2) ↦ elim (Option-cases (export_symbols p2 p2.symtab coded)) [
          | inl trap ↦ rw (e1, e2, trap) tt
          | inr (exported, e3) ↦
              let names : SameNames p1 (some (p2, allocated)) =
                rw e1 at (allocate_all-SameNames p.symlist p1 img) in
              let short : HaveShortPc p2.ilist = rw names.0 (number_from-HaveShortPc 0 p.ilist) in
              rw (e1, e2, e3)
                (λ below.
                  compiled_lem limit small p p1 p2 img allocated coded exported refl
                    (rw e1 at (allocate_all-Grown limit small p.symlist p1 img)) names
                    (rw e2 at (compile_code-EncodedAll limit small p2 p2.ilist allocated short))
                    (rw e3 at (export_symbols-Exported limit small p2 p2.symtab coded)) coherent
                    (omega arith) below)
        ]
      ]
    ]

-- A program that `compile` compiles into a coherent image, with its registers below the first
-- tram line: the image stays coherent, and behind the code that was there it has one
-- instruction for each of the program, numbered by their places, whose operation is that of the
-- program and whose operands mean what `IsOperand` says.
pub compile-IsCompiled :
    (p : Program) (img : Image) (p' : Program) (img' : Image)
    → IsCoherent img
    → img.current_line ≤ 2 ^ 16
    → compile p img ≡ some (p', img')
    → img'.current_gpr ≤ img.current_line
    → IsCompiled p img p' img'
compile-IsCompiled p img p' img' coherent small done below =
    let result : MayBeCompiled p img (some (p', img')) =
      rw done at (compile-MayBeCompiled p img coherent small) in
    result below
