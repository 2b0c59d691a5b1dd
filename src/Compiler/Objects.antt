-- ===== src/Compiler/Objects.antt =====
-- The objects of a program: a pointer is the place of an object in the store.
use emufxtool.Base.{ℕ, zero, suc, Option, none, some, List, [], ◌∷◌, set}
use emufxtool.Base.Text.{Text}
use emufxtool.Base.Table.{Table}
use emufxtool.Flags.{v_label}
use emufxtool.Symbols.Initializers.{Initializer, new_initializer}
use emufxtool.Symbols.Instructions.{Instruction, Label, get_label_pc}
use emufxtool.Expression.Trees.{ExprOp, NType, Expression, empty, number, unary, binary, init_ref}

-- `emuExpression` as the parser builds it: a reference holds a pointer.
pub data Operand : Type 0 where
  nothing : Operand
  constant : (flags value : ℕ) (n_type : NType) → Operand
  prefixed : ExprOp → Operand → Operand
  combined : ExprOp → Operand → Operand → Operand
  reference : (pointer : ℕ) → Operand → Operand

-- The classes of `emuElement` that symbols have.
pub data Element : Type 0 where
  initializer : Initializer → Element
  label : Label → Element

-- What pointers point to, by the place: `none` stands for an object that has been deleted.
abbrev pub Store : Type 0
Store = List (Option Element)

-- What is at a pointer; `none` where the source has no defined behaviour.
abbrev pub object : Store → ℕ → Option Element
object [] pointer = none
object (e ∷ es) zero = e
object (e ∷ es) (suc pointer) = object es pointer

-- What `emuParser` has gathered: `SYMLIST`, `SYMTAB` and `ILIST`, and what the pointers point to.
pub record Program : Type 0 where
  pub elements : Store
  pub symlist : List ℕ
  pub symtab : Table Text ℕ
  pub ilist : List (Instruction Operand)

-- What the virtual methods `getFlags`, `getAddress` and `getValue` give at offset 0: those of a
-- label give `V_LABEL`, 0 and its instruction's number.
unfoldable pub as_initializer : List (Instruction Operand) → Element → Initializer
as_initializer code (initializer i) = i
as_initializer code (label l) = record (new_initializer l.symbol v_label) {
  initial_values = get_label_pc l code ∷ [];
}

-- Follow the pointers of an expression; `none` where one points to nothing.
unfoldable pub resolve : Program → Operand → Option Expression
resolve p nothing = some (empty 0)
resolve p (constant flags value n_type) = some (number flags value n_type)
resolve p (prefixed op a) = elim (resolve p a) [ none ↦ none | some e ↦ some (unary op e) ]
resolve p (combined op a b) =
    let second = resolve p b in
    elim (resolve p a) [
      | none ↦ none
      | some e ↦ elim second [ none ↦ none | some f ↦ some (binary op e f) ]
    ]
resolve p (reference pointer index) =
    let at = resolve p index in
    elim (object p.elements pointer) [
      | none ↦ none
      | some i ↦ elim at [ none ↦ none | some e ↦ some (init_ref (as_initializer p.ilist i) e) ]
    ]

-- A change of the initializer that a pointer points to.
unfoldable pub update : ℕ → Initializer → Program → Program
update pointer i p = record p { elements = set p.elements pointer (some (initializer i)) }
