-- ===== src/Parser/Keeps/Programs.antt =====
-- Declarations and whole programs keep the program closed.
use emufxtool.Base.{ℕ, zero, suc, ◌+◌, none, some, inl, inr, Option-cases, length, List, []}
use emufxtool.Base.Text.{Text}
use emufxtool.Symbols.Initializers.{Initializer}
use emufxtool.Symbols.Instructions.{Instruction}
use emufxtool.Scanner.Tables.{Token}
use emufxtool.Compiler.Objects.{object, Operand, initializer}
use emufxtool.Parser.State.{Library, Parser, Error, modify}
use emufxtool.Parser.Reading.{add_symbol}
use emufxtool.Parser.Variables.{
  Declaration, add_attribute, store, add_stereo, add_line, add_tram, add_declared, attribute_loop,
  symbol_loop, parse_variables,
}
use emufxtool.Parser.Program.{
  append_instruction, forget_labels, new_place, statement, skip_statement, patch_body, recover,
  patch_round, patch_loop, point_labels, parse_patch,
}
use emufxtool.Parser.Keeps.{
  Left, Closed, Keeps, Keeps-bind, Keeps-bind_option, Keeps-catch, Keeps-if, Keeps-pure,
}
use emufxtool.Parser.Keeps.Changes.{update-IsClosed, append-IsClosed, point_labels-IsClosed}
use emufxtool.Parser.Keeps.Words.{word_rules, get_unparsed_token-Keeps}
use emufxtool.Parser.Keeps.Expressions.{add_symbol-Keeps, element_at-Keeps}
use emufxtool.Parser.Keeps.Declarations.{
  read_rules, parse_instruction-Keeps, parse_properties-Keeps, parse_initializer-Keeps,
}

add_initializer-Keeps :
    (name : Text) (i : Initializer) → Keeps Closed (add_symbol name (initializer i))
add_initializer-Keeps name i = add_symbol-Keeps name (initializer i) (λ n. tt)

store-Keeps : (pointer : ℕ) (i : Initializer) → Keeps Closed (store pointer i)
unfolding store
store-Keeps pointer i = record {
  at = λ p h. elim (Option-cases (object p.program.elements pointer)) [
    | inl dangling ↦ rw (dangling, store) tt
    | inr (e, found) ↦ rw (found, store) (update-IsClosed p.program pointer i h)
  ];
}

next_tram-Keeps : Keeps Closed (modify (λ p. record p { current_tram = p.current_tram + 1 }))
next_tram-Keeps = record { at = λ p h. h }

add_attribute-Keeps : (t : Token) (tmp : ℕ) → Keeps Closed (add_attribute t tmp)
unfolding add_attribute
add_attribute-Keeps t tmp = search word_rules depth 40 fits 4000

add_stereo-Keeps : (pointer : ℕ) (i : Initializer) → Keeps Closed (add_stereo pointer i)
unfolding add_stereo
add_stereo-Keeps pointer i = search (word_rules, store-Keeps, add_initializer-Keeps) depth 20

add_line-Keeps : (pointer : ℕ) (i : Initializer) → Keeps Closed (add_line pointer i)
unfolding add_line
add_line-Keeps pointer i = search (word_rules, store-Keeps, add_initializer-Keeps) depth 20

add_tram-Keeps : (pointer : ℕ) (i : Initializer) → Keeps Closed (add_tram pointer i)
unfolding add_tram
add_tram-Keeps pointer i = search (word_rules, store-Keeps, next_tram-Keeps) depth 20

add_declared-Keeps : (i : Initializer) → Keeps Closed (add_declared i)
unfolding add_declared
add_declared-Keeps i =
    search
      (
        word_rules, store-Keeps, add_initializer-Keeps, add_stereo-Keeps, add_line-Keeps,
        add_tram-Keeps,
      )
      depth 20

append_instruction-Keeps :
    (waiting : List ℕ) (i : Instruction Operand) → Keeps Closed (append_instruction waiting i)
unfolding append_instruction
append_instruction-Keeps waiting i = record {
  at = λ p h.
      elim (Option-cases
        (point_labels (some (length p.program.ilist)) waiting p.program.elements)) [
          | inl lost ↦ rw (lost, append_instruction) tt
          | inr (es, done) ↦
              rw (done, append_instruction) (append-IsClosed p.program waiting i es done h)
        ];
}

forget_labels-Keeps : (waiting : List ℕ) → Keeps Closed (forget_labels waiting)
unfolding forget_labels
forget_labels-Keeps waiting = record {
  at = λ p h. elim (Option-cases (point_labels none waiting p.program.elements)) [
    | inl lost ↦ rw (lost, forget_labels) tt
    | inr (es, done) ↦ rw (done, forget_labels) (point_labels-IsClosed p.program waiting es done h)
  ];
}

new_place-Keeps : (name : Text) → Keeps Closed (new_place name)
unfolding new_place
new_place-Keeps name = search (word_rules, element_at-Keeps) depth 20

module _ (lib : Library) (fuel : ℕ) where
  attribute_loop-Keeps :
      (rounds valid tmp : ℕ) → Keeps Closed (attribute_loop lib fuel rounds valid tmp)
  unfolding attribute_loop
  attribute_loop-Keeps zero valid tmp = search word_rules
  attribute_loop-Keeps (suc rounds) valid tmp =
      search (read_rules, add_attribute-Keeps, attribute_loop-Keeps rounds) depth 20

  symbol_loop-Keeps :
      (rounds options : ℕ) (d : Declaration) → Keeps Closed (symbol_loop lib fuel rounds options d)
  unfolding symbol_loop
  symbol_loop-Keeps zero options d = search word_rules
  symbol_loop-Keeps (suc rounds) options d =
      search (read_rules, parse_initializer-Keeps, add_declared-Keeps, symbol_loop-Keeps rounds)
        depth 40 fits 4000

  parse_variables-Keeps : Keeps Closed (parse_variables lib fuel)
  unfolding parse_variables
  parse_variables-Keeps =
      search (read_rules, attribute_loop-Keeps, symbol_loop-Keeps) depth 40 fits 4000

  store_props-Keeps : (l : _) → Keeps Closed (modify (λ p. record p { props = l }))
  store_props-Keeps l = record { at = λ p h. h }

  statement-Keeps : (waiting : List ℕ) (t : Token) → Keeps Closed (statement lib fuel waiting t)
  unfolding statement
  statement-Keeps waiting t =
      search
        (
          read_rules, parse_instruction-Keeps, append_instruction-Keeps, new_place-Keeps,
          parse_properties-Keeps, store_props-Keeps, parse_variables-Keeps,
        )
        depth 60 fits 8000

  skip_statement-Keeps : (rounds : ℕ) → Keeps Closed (skip_statement lib fuel rounds)
  unfolding skip_statement
  skip_statement-Keeps zero = search word_rules
  skip_statement-Keeps (suc rounds) =
      Keeps-bind _ _ (get_unparsed_token-Keeps lib fuel)
        (λ t. Keeps-if _ _ _ (Keeps-pure _) (skip_statement-Keeps rounds))

  patch_body-Keeps : (waiting : List ℕ) → Keeps Closed (patch_body lib fuel waiting)
  unfolding patch_body
  patch_body-Keeps waiting = search (read_rules, statement-Keeps) depth 20

  recover-Keeps : (waiting : List ℕ) (e : Error) → Keeps Closed (recover lib fuel waiting e)
  unfolding recover
  recover-Keeps waiting e = search (word_rules, skip_statement-Keeps) depth 20

  patch_round-Keeps : (waiting : List ℕ) → Keeps Closed (patch_round lib fuel waiting)
  unfolding patch_round
  patch_round-Keeps waiting = Keeps-catch _ _ (patch_body-Keeps waiting) (recover-Keeps waiting)

  patch_loop-Keeps :
      (rounds : ℕ) (waiting : List ℕ) → Keeps Closed (patch_loop lib fuel rounds waiting)
  unfolding patch_loop
  patch_loop-Keeps zero waiting = search word_rules
  patch_loop-Keeps (suc rounds) waiting =
      Keeps-bind_option _ _ (patch_round-Keeps waiting) (forget_labels-Keeps waiting)
        (λ waiting'. patch_loop-Keeps rounds waiting')

  -- Parsing keeps the program closed, on every text, from every state and whatever errors there
  -- are, as long as its behaviour is defined: every name of the symbol table points to an element
  -- that has not been deleted, and no two names to the same; a pointer of the symbol list was
  -- given to an element, which may have been deleted; every label that has an instruction points
  -- to one of the list, and the instructions are numbered.
  pub parse_patch-IsClosed : (p : Parser) → Closed p → Left Closed (parse_patch lib fuel p)
  unfolding parse_patch
  parse_patch-IsClosed p h = (patch_loop-Keeps fuel []).at p h
