-- ===== src/Parser/Keeps/Directives.antt =====
-- The preprocessor keeps the program closed, and with it all words and expressions.
use emufxtool.Base.{ℕ, zero, suc, Bool, Bool-cases, inl, inr, []}
use emufxtool.Base.Text.{Text}
use emufxtool.Symbols.Macros.{Macro}
use emufxtool.Scanner.Tables.{Token}
use emufxtool.Compiler.Objects.{Operand}
use emufxtool.Parser.State.{Library, Method}
use emufxtool.Parser.Directives.{
  for_loop, for_text, if_directive, message_directive, for_directive, defined_directive,
  eval_directive, include_directive, macro_call, throw_err_macro, define_directive,
}
use emufxtool.Parser.Preprocessor.{
  token_in_streams, end_of_comment, skip_comments, directive, new_word, next_word_body,
}
use emufxtool.Parser.Recursion.{get_next_word, parse_expression, parse_element, get_next_token}
use emufxtool.Parser.Blocks.{is_eof}
use emufxtool.Parser.Keeps.{Closed, Keeps, Keeps-bind, Keeps-if, Keeps-pure}
use emufxtool.Parser.Keeps.Words.{
  word_rules, end_stream-Keeps, get_unparsed_token-Keeps, get_last_token-Keeps, token_by-Keeps,
  expect-Keeps, expect_name-Keeps, parse_block-Keeps, parse_macro-Keeps, read_alist-Keeps,
}
use emufxtool.Parser.Keeps.Expressions.{
  set_last_word-Keeps, element_body-Keeps, expression_loop-Keeps,
}

for_loop-Keeps :
    (rounds step i : ℕ) (m : Macro) (acc : Text) → Keeps Closed (for_loop rounds step i m acc)
unfolding for_loop
for_loop-Keeps zero step i m acc = search word_rules
for_loop-Keeps (suc rounds) step i m acc = search (word_rules, for_loop-Keeps rounds)

for_text-Keeps : (v1 v2 : ℕ) (m : Macro) → Keeps Closed (for_text v1 v2 m)
unfolding for_text
for_text-Keeps v1 v2 m = search (word_rules, for_loop-Keeps)

module _ (lib : Library) where
  token_in_streams-Keeps : (fuel : ℕ) → Keeps Closed (token_in_streams lib fuel)
  unfolding token_in_streams
  token_in_streams-Keeps zero = search word_rules
  token_in_streams-Keeps (suc fuel) = Keeps-bind _ _ (get_unparsed_token-Keeps lib fuel) (λ t.
      Keeps-if (is_eof t) _ _
        (Keeps-bind _ _ end_stream-Keeps
          (λ left. Keeps-if left _ _ (token_in_streams-Keeps fuel) (Keeps-pure t)))
        (Keeps-pure t))

  end_of_comment-Keeps : (fuel : ℕ) → Keeps Closed (end_of_comment lib fuel)
  unfolding end_of_comment
  end_of_comment-Keeps zero = search word_rules
  end_of_comment-Keeps (suc fuel) =
      Keeps-bind _ _ (get_unparsed_token-Keeps lib fuel)
        (λ t. Keeps-if _ _ _ (Keeps-pure _) (end_of_comment-Keeps fuel))

  skip_comments-Keeps : (fuel : ℕ) (t : Token) → Keeps Closed (skip_comments lib fuel t)
  unfolding skip_comments
  skip_comments-Keeps zero t = search word_rules
  skip_comments-Keeps (suc fuel) t =
      search (word_rules, get_unparsed_token-Keeps, end_of_comment-Keeps, skip_comments-Keeps fuel)
        depth 16

  if_directive-Keeps :
      (fuel : ℕ) {next : Method Text} {expression : Method Operand}
      → Keeps Closed next
      → Keeps Closed expression
      → Keeps Closed (if_directive lib fuel next expression)
  unfolding if_directive
  if_directive-Keeps fuel k l =
      search (word_rules, parse_block-Keeps, get_unparsed_token-Keeps) depth 40 fits 4000

  message_directive-Keeps :
      (fuel : ℕ) {next : Method Text} (is_error : Bool)
      → Keeps Closed next
      → Keeps Closed (message_directive lib fuel next is_error)
  unfolding message_directive
  message_directive-Keeps fuel is_error k = search (word_rules, parse_block-Keeps) depth 20

  for_directive-Keeps :
      (fuel : ℕ) {next : Method Text} {expression : Method Operand}
      → Keeps Closed next
      → Keeps Closed expression
      → Keeps Closed (for_directive lib fuel next expression)
  unfolding for_directive
  for_directive-Keeps fuel k l =
      search (word_rules, expect-Keeps, expect_name-Keeps, parse_block-Keeps, for_text-Keeps) depth
        40 fits 4000

  defined_directive-Keeps :
      (fuel : ℕ) (yes_text no_text : Text)
      → Keeps Closed (defined_directive lib fuel yes_text no_text)
  unfolding defined_directive
  defined_directive-Keeps fuel yes_text no_text = search (word_rules, get_last_token-Keeps) depth 20

  eval_directive-Keeps :
      {next : Method Text} {expression : Method Operand}
      → Keeps Closed next
      → Keeps Closed expression
      → Keeps Closed (eval_directive lib next expression)
  unfolding eval_directive
  eval_directive-Keeps k l = search word_rules depth 20

  include_directive-Keeps :
      (fuel : ℕ) {next : Method Text}
      → Keeps Closed next
      → Keeps Closed (include_directive lib fuel next)
  unfolding include_directive
  include_directive-Keeps fuel k = search word_rules depth 20

  macro_call-Keeps :
      (fuel : ℕ) {next : Method Text} (name : Text)
      → Keeps Closed next
      → Keeps Closed (macro_call lib fuel next name)
  unfolding macro_call
  macro_call-Keeps fuel name k = search (word_rules, read_alist-Keeps) depth 20

  throw_err_macro-Keeps : (name : Text) → Keeps Closed (throw_err_macro lib name)
  unfolding throw_err_macro
  throw_err_macro-Keeps name = record { at = λ p h. h }

  define_directive-Keeps :
      (fuel : ℕ) {next : Method Text}
      → Keeps Closed next
      → Keeps Closed (define_directive lib fuel next)
  unfolding define_directive
  define_directive-Keeps fuel k =
      search (word_rules, get_unparsed_token-Keeps, parse_macro-Keeps, throw_err_macro-Keeps) depth
        20

  directive-Keeps :
      (fuel : ℕ) {next : Method Text} {expression : Method Operand} (t : Token) (word : Text)
      → Keeps Closed next
      → Keeps Closed expression
      → Keeps Closed (directive lib fuel next expression t word)
  unfolding directive
  directive-Keeps fuel t word k l =
      search
        (
          word_rules, if_directive-Keeps, message_directive-Keeps, for_directive-Keeps,
          defined_directive-Keeps, eval_directive-Keeps, include_directive-Keeps, macro_call-Keeps,
          define_directive-Keeps,
        )
        depth 40 fits 4000

  new_word-Keeps :
      (fuel : ℕ) {next : Method Text} {expression : Method Operand}
      → Keeps Closed next
      → Keeps Closed expression
      → Keeps Closed (new_word lib fuel next expression)
  unfolding new_word
  new_word-Keeps fuel k l =
      search
        (
          word_rules, token_in_streams-Keeps, skip_comments-Keeps, directive-Keeps,
          set_last_word-Keeps,
        )
        depth 40 fits 4000

  next_word_body-Keeps :
      (fuel : ℕ) {next : Method Text} {expression : Method Operand}
      → Keeps Closed next
      → Keeps Closed expression
      → Keeps Closed (next_word_body lib fuel next expression)
  unfolding next_word_body
  next_word_body-Keeps fuel {next} {expression} k l = record {
    at = λ p h. elim (Bool-cases p.scanner.read_new_word) [
      | inl fresh ↦ rw (fresh, next_word_body) ((new_word-Keeps fuel k l).at p h)
      | inr given_back ↦ rw (given_back, next_word_body) h
    ];
  }

  record AllKeep (fuel : ℕ) : Type 0 where
    word : Keeps Closed (get_next_word lib fuel)
    expression : Keeps Closed (parse_expression lib fuel)
    element : Keeps Closed (parse_element lib fuel)

  all_keep : (fuel : ℕ) → AllKeep fuel
  unfolding get_next_word
  all_keep zero = record {
    word = search word_rules;
    expression = search word_rules;
    element = search word_rules;
  }
  all_keep (suc fuel) =
      let before = all_keep fuel in
      record {
        word = next_word_body-Keeps fuel before.word before.expression;
        expression = expression_loop-Keeps lib fuel [] [] before.word before.element;
        element = element_body-Keeps lib fuel before.word before.expression before.element;
      }

  pub get_next_word-Keeps : (fuel : ℕ) → Keeps Closed (get_next_word lib fuel)
  get_next_word-Keeps fuel = (all_keep fuel).word

  pub parse_expression-Keeps : (fuel : ℕ) → Keeps Closed (parse_expression lib fuel)
  parse_expression-Keeps fuel = (all_keep fuel).expression

  pub get_next_token-Keeps : (fuel : ℕ) → Keeps Closed (get_next_token lib fuel)
  unfolding get_next_token
  get_next_token-Keeps fuel = token_by-Keeps lib (get_next_word-Keeps fuel)
