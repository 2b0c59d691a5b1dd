-- ===== src/Parser/Keeps/Expressions.antt =====
-- Numbers and expressions keep the program closed.
use emufxtool.Base.{ℕ, zero, suc, Option-cases, inl, inr, List}
use emufxtool.Base.Text.{Text}
use emufxtool.Symbols.Instructions.{new_label}
use emufxtool.Scanner.Tables.{Token}
use emufxtool.Compiler.Objects.{object, Operand, Element, label}
use emufxtool.Parser.Operators.{OpToken}
use emufxtool.Parser.State.{Library, Method}
use emufxtool.Parser.Reading.{add_symbol}
use emufxtool.Parser.Numerals.{
  set_last_word, get_exponent, get_next_float, based_number, float_number, int_number,
}
use emufxtool.Parser.Expressions.{
  element_at, label_reference, symbol_reference, skip_plus, element_body, expression_loop,
}
use emufxtool.Parser.Keeps.{Closed, Keeps}
use emufxtool.Parser.Keeps.Inside.{PointsInside}
use emufxtool.Parser.Keeps.Changes.{add-IsClosed}
use emufxtool.Parser.Keeps.Words.{word_rules, token_by-Keeps, expect-Keeps, expect_name-Keeps}

-- The element of a new symbol does not point to an instruction.
pub add_symbol-Keeps :
    (name : Text) (e : Element) → ((n : ℕ) → PointsInside n e) → Keeps Closed (add_symbol name e)
unfolding add_symbol
add_symbol-Keeps name e k = record { at = λ p h. add-IsClosed p.program name e (k _) h }

add_label-Keeps : (name : Text) → Keeps Closed (add_symbol name (label (new_label name)))
add_label-Keeps name = add_symbol-Keeps name (label (new_label name)) (λ n. tt)

pub element_at-Keeps : (pointer : ℕ) → Keeps Closed (element_at pointer)
unfolding element_at
element_at-Keeps pointer = record {
  at = λ p h. elim (Option-cases (object p.program.elements pointer)) [
    | inl dangling ↦ rw (dangling, element_at) tt
    | inr (e, found) ↦ rw (found, element_at) h
  ];
}

pub set_last_word-Keeps : (word : Text) → Keeps Closed (set_last_word word)
set_last_word-Keeps word = record { at = λ p h. h }

module _ (lib : Library) where
  get_exponent-Keeps :
      {next : Method Text} → Keeps Closed next → Keeps Closed (get_exponent lib next)
  unfolding get_exponent
  get_exponent-Keeps k = search (word_rules, token_by-Keeps) depth 16

  get_next_float-Keeps :
      {next : Method Text} → Keeps Closed next → Keeps Closed (get_next_float lib next)
  unfolding get_next_float
  get_next_float-Keeps k = search (word_rules, get_exponent-Keeps, set_last_word-Keeps) depth 16

  based_number-Keeps :
      {next : Method Text} (base ctype : ℕ) (complaint : Text)
      → Keeps Closed next
      → Keeps Closed (based_number lib next base ctype complaint)
  unfolding based_number
  based_number-Keeps base ctype complaint k = search word_rules depth 16

  float_number-Keeps :
      {next : Method Text} (t : Token) → Keeps Closed next → Keeps Closed (float_number lib next t)
  unfolding float_number
  float_number-Keeps t k = search (word_rules, get_next_float-Keeps) depth 16

  int_number-Keeps : (digits : Text) → Keeps Closed (int_number lib digits)
  unfolding int_number
  int_number-Keeps digits = search word_rules depth 16

  label_reference-Keeps :
      {next : Method Text} → Keeps Closed next → Keeps Closed (label_reference lib next)
  unfolding label_reference
  label_reference-Keeps k =
      search (word_rules, expect_name-Keeps, element_at-Keeps, add_label-Keeps) depth 20

  symbol_reference-Keeps :
      {next : Method Text} {expression : Method Operand}
      → Keeps Closed next
      → Keeps Closed expression
      → Keeps Closed (symbol_reference lib next expression)
  unfolding symbol_reference
  symbol_reference-Keeps k l =
      search (word_rules, token_by-Keeps, expect-Keeps, element_at-Keeps) depth 20

  skip_plus-Keeps :
      (fuel : ℕ) {next : Method Text} → Keeps Closed next → Keeps Closed (skip_plus lib fuel next)
  unfolding skip_plus
  skip_plus-Keeps zero k = search word_rules
  skip_plus-Keeps (suc fuel) k = search (word_rules, token_by-Keeps, skip_plus-Keeps fuel) depth 16

  pub element_body-Keeps :
      (fuel : ℕ) {next : Method Text} {expression element : Method Operand}
      → Keeps Closed next
      → Keeps Closed expression
      → Keeps Closed element
      → Keeps Closed (element_body lib fuel next expression element)
  unfolding element_body
  element_body-Keeps fuel k l m =
      search
        (
          word_rules, expect-Keeps, skip_plus-Keeps, int_number-Keeps, float_number-Keeps,
          based_number-Keeps, label_reference-Keeps, symbol_reference-Keeps,
        )
        depth 40 fits 4000

  pub expression_loop-Keeps :
      (fuel : ℕ) {next : Method Text} {element : Method Operand} (es : List Operand)
      (ops : List OpToken)
      → Keeps Closed next
      → Keeps Closed element
      → Keeps Closed (expression_loop lib fuel next element es ops)
  unfolding expression_loop
  expression_loop-Keeps zero es ops k l = search word_rules
  expression_loop-Keeps (suc fuel) es ops k l =
      search (word_rules, token_by-Keeps, expression_loop-Keeps fuel) depth 16
