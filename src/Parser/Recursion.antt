-- ===== src/Parser/Recursion.antt =====
-- The recursion through `GetNextWord`, `ParseExpression` and `ParseExpressionElement`, on fuel.
use emufxtool.Base.{ℕ, zero, suc, []}
use emufxtool.Base.Text.{Text}
use emufxtool.Scanner.Tables.{Token}
use emufxtool.Compiler.Objects.{Operand}
use emufxtool.Parser.State.{Library, Method, give_up}
use emufxtool.Parser.Blocks.{token_by}
use emufxtool.Parser.Expressions.{element_body, expression_loop}
use emufxtool.Parser.Preprocessor.{next_word_body}

module _ (lib : Library) where
  unfoldable mutual
    pub get_next_word : ℕ → Method Text
    get_next_word zero = give_up
    get_next_word (suc fuel) = next_word_body lib fuel (get_next_word fuel) (parse_expression fuel)

    pub parse_expression : ℕ → Method Operand
    parse_expression zero = give_up
    parse_expression (suc fuel) =
        expression_loop lib fuel (get_next_word fuel) (parse_element fuel) [] []

    pub parse_element : ℕ → Method Operand
    parse_element zero = give_up
    parse_element (suc fuel) =
        element_body lib fuel (get_next_word fuel) (parse_expression fuel) (parse_element fuel)

  -- `GetNextToken`
  unfoldable pub get_next_token : ℕ → Method Token
  unfolding token_by
  get_next_token fuel = token_by lib (get_next_word fuel)
