-- ===== src/Parser/Program.antt =====
-- `ParsePatch`: the statements of a program. What `optPreprocess` prints is left out.
use emufxtool.Base.{
  ℕ, zero, suc, Bool, false, Option, none, some, List, [], ◌∷◌, ◌++◌, ◌&&◌, ◌||◌, leb, length, set,
  if◌then◌else◌,
}
use emufxtool.Base.Text.{Text, codes}
use emufxtool.Words.{is_set}
use emufxtool.Symbols.Instructions.{
  Label, Instruction, add_instruction, set_instruction, has_instruction,
}
use emufxtool.Scanner.Tables.{Token, symbol}
use emufxtool.Compiler.Objects.{Operand, Store, object, initializer, label}
use emufxtool.Parser.Tokens
use emufxtool.Parser.State.{
  Library, Error, Method, ok, stuck, pure, ◌>>=◌, ◌>>◌, gets, modify, give_up, catch,
}
use emufxtool.Parser.Reading.{
  throw_err_s, get_last_word, push_back_word, get_unparsed_token, get_options, report, a_macro,
  an_element, resolve_symbol,
}
use emufxtool.Parser.Blocks.{is_symbol, is_eof, is_name}
use emufxtool.Parser.Expressions.{element_at}
use emufxtool.Parser.Recursion.{get_next_token}
use emufxtool.Parser.Declarations.{parse_instruction, parse_properties}
use emufxtool.Parser.Variables.{parse_variables}

abbrev opt_preprocess : ℕ
opt_preprocess = 2

-- `IsOpcode`
unfoldable pub is_opcode : Token → Bool
is_opcode (symbol n) = leb Tokens.t_macs n && leb n Tokens.t_skip
is_opcode t = false

abbrev declares : Token → Bool
declares t =
    is_symbol t Tokens.t_control
    || is_symbol t Tokens.t_fx_bus
    || is_symbol t Tokens.t_ext_in
    || is_symbol t Tokens.t_ext_out
    || is_symbol t Tokens.t_tram
    || is_symbol t Tokens.t_line
    || is_symbol t Tokens.t_const
    || is_symbol t Tokens.t_var

abbrev patch_strings : List Text
patch_strings =
    codes "name" ∷ codes "card_name" ∷ codes "author" ∷ codes "version" ∷ codes "comment" ∷ []

abbrev patch_numbers : List Text
patch_numbers =
    codes "card_id"
    ∷ codes "gpr_first"
    ∷ codes "gpr_count"
    ∷ codes "line_first"
    ∷ codes "line_count"
    ∷ codes "tram_count"
    ∷ codes "iline_first"
    ∷ codes "iline_count"
    ∷ codes "itram_count"
    ∷ codes "line_address_offset"
    ∷ codes "code_size"
    ∷ codes "shift_opcode"
    ∷ codes "shift_R"
    ∷ codes "shift_A"
    ∷ codes "shift_X"
    ∷ codes "shift_Y"
    ∷ codes "mask_opcode"
    ∷ codes "mask_R"
    ∷ codes "mask_A"
    ∷ codes "mask_X"
    ∷ codes "mask_Y"
    ∷ []

-- A label gets its instruction, or loses it.
abbrev pub pointed : Option ℕ → Label → Label
pointed none l = record l { instruction = none }
pointed (some n) l = set_instruction n l

-- `none` where there is no label at the pointer.
unfoldable pub point_label : Option ℕ → Store → ℕ → Option Store
point_label place elements pointer = elim (object elements pointer) [
  | some (label l) ↦ some (set elements pointer (some (label (pointed place l))))
  | some (initializer i) ↦ none
  | none ↦ none
]

unfoldable pub point_labels : Option ℕ → List ℕ → Store → Option Store
unfolding point_label
point_labels place [] elements = some elements
point_labels place (pointer ∷ pointers) elements = elim (point_label place elements pointer) [
  | none ↦ none
  | some elements' ↦ point_labels place pointers elements'
]

-- An instruction, and the labels that wait for it.
unfoldable pub append_instruction : List ℕ → Instruction Operand → Method (Unit {0})
unfolding point_labels
append_instruction waiting i p =
    elim (point_labels (some (length p.program.ilist)) waiting p.program.elements) [
      | none ↦ stuck
      | some elements ↦ ok tt (record p {
        program = record p.program {
          elements = elements;
          ilist = add_instruction i p.program.ilist;
        };
      })
    ]

-- The labels that still wait at the end of the program.
unfoldable pub forget_labels : List ℕ → Method (Unit {0})
unfolding point_labels
forget_labels waiting p = elim (point_labels none waiting p.program.elements) [
  | none ↦ stuck
  | some elements ↦ ok tt (record p { program = record p.program { elements = elements } })
]

-- The label that a name stands for. Any other element would be taken for one.
unfoldable pub new_place : Text → Method ℕ
unfolding element_at
new_place name = do
  known ← gets (resolve_symbol name)
  elim known [
    | none ↦ throw_err_s name (codes "label without reference")
    | some (a_macro m) ↦ give_up
    | some (an_element pointer) ↦ (do
      e ← element_at pointer
      elim e [
        | initializer i ↦ give_up
        | label l ↦
            if has_instruction l
            then throw_err_s name (codes "label already defined")
            else pure pointer
      ])
  ]

module _ (lib : Library) (fuel : ℕ) where
  -- One statement; the labels that wait go in and come out.
  unfoldable pub statement : List ℕ → Token → Method (List ℕ)
  unfolding parse_instruction append_instruction new_place parse_properties parse_variables
      get_next_token is_opcode
  statement waiting tok = do
    word ← get_last_word
    let coded = (do
      push_back_word
      i ← parse_instruction lib fuel
      elim i [
        | none ↦ throw_err_s word (codes "invalid instruction format")
        | some instruction ↦ (do append_instruction waiting instruction; pure [])
      ])
    let placed = (do
      after ← get_next_token lib fuel
      if is_symbol after Tokens.t_colon
          then (do pointer ← new_place word; pure (waiting ++ pointer ∷ []))
          else throw_err_s word (codes "undefined symbol"))
    let described = (do
      props ← gets (λ p. p.props)
      props' ←
          parse_properties lib fuel (some patch_strings) (some patch_numbers)
            (λ l. modify (λ p. record p { props = l })) props
      pure waiting)
    let declared = (do push_back_word; parse_variables lib fuel; pure waiting)
    let complaint = codes " found where var, const, define, macro or instruction expected"
    if is_symbol tok Tokens.t_instruction_end
        then pure waiting
        else if is_opcode tok
        then coded
        else if is_name tok
        then placed
        else if is_symbol tok Tokens.t_patch
        then described
        else if declares tok
        then declared
        else throw_err_s word complaint

  -- After an error: the rest of the statement is skipped.
  unfoldable pub skip_statement : (rounds : ℕ) → Method (Unit {0})
  unfolding get_unparsed_token
  skip_statement zero = give_up
  skip_statement (suc rounds) = do
    t ← get_unparsed_token lib fuel
    let more = skip_statement rounds
    if is_eof t || is_symbol t Tokens.t_instruction_end then pure tt else more

  -- The `try` block of a round; `none` at the end of the program.
  unfoldable pub patch_body : List ℕ → Method (Option (List ℕ))
  unfolding statement get_next_token get_options
  patch_body waiting = do
    tok ← get_next_token lib fuel
    preprocess ← get_options opt_preprocess
    let normal = (do waiting' ← statement waiting tok; pure (some waiting'))
    if is_eof tok then pure none else if is_set preprocess then pure (some waiting) else normal

  -- Its handler.
  unfoldable pub recover : List ℕ → Error → Method (Option (List ℕ))
  unfolding skip_statement report
  recover waiting e = do report e; skip_statement fuel; pure (some waiting)

  -- One round of the loop.
  unfoldable pub patch_round : List ℕ → Method (Option (List ℕ))
  unfolding patch_body recover
  patch_round waiting = catch (patch_body waiting) (recover waiting)

  unfoldable pub patch_loop : (rounds : ℕ) → List ℕ → Method (Unit {0})
  unfolding patch_round forget_labels
  patch_loop zero waiting = give_up
  patch_loop (suc rounds) waiting = do
    next ← patch_round waiting
    elim next [ some waiting' ↦ patch_loop rounds waiting' | none ↦ forget_labels waiting ]

  -- `ParsePatch`
  unfoldable pub parse_patch : Method (Unit {0})
  unfolding patch_loop
  parse_patch = patch_loop fuel []
