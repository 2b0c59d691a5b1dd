-- ===== src/Parser/Blocks.antt =====
-- `ParseBlock`, `ParseMacro` and `ReadAList`. `next` is `GetNextWord`; loops run on fuel.
use emufxtool.Base.{
  ℕ, zero, suc, ◌+◌, ◌-◌, Bool, true, false, List, [], ◌∷◌, ◌++◌, ◌==◌, ◌&&◌, ◌||◌, leb, ltb,
  is_empty, if◌then◌else◌,
}
use emufxtool.Base.Text.{Text, codes}
use emufxtool.Symbols.Macros.{Macro, new_macro, add_parameter, add_macro_token}
use emufxtool.Scanner.Tables.{Token, symbol, token_eof, token_identifier}
use emufxtool.Parser.Tokens
use emufxtool.Parser.State.{Library, Method, pure, ◌>>=◌, ◌>>◌, gets, give_up}
use emufxtool.Parser.Reading.{
  throw_err_s, throw_err_t, get_last_word, push_back_word, get_unparsed_word, token_of,
}

abbrev pub is_symbol : Token → ℕ → Bool
is_symbol (symbol n) k = n == k
is_symbol t k = false

abbrev pub is_eof : Token → Bool
is_eof token_eof = true
is_eof t = false

abbrev pub is_name : Token → Bool
is_name token_identifier = true
is_name t = false

module _ (lib : Library) where
  -- `this->Token(...)` of a word, after it is read.
  unfoldable pub token_by : Method Text → Method Token
  token_by word = do w ← word; gets (token_of lib w)

  -- `EXPECT`
  unfoldable pub expect : Method Text → ℕ → Method (Unit {0})
  unfolding token_by
  expect next t = do
    token ← token_by next
    if is_symbol token t then pure tt else throw_err_t (symbol t)

  -- `EXPECT(TOKEN_IDENTIFIER)`, and the word.
  unfoldable pub expect_name : Method Text → Method Text
  unfolding token_by
  expect_name next = do
    token ← token_by next
    if is_name token then get_last_word else throw_err_t token_identifier

  -- The tokens between braces, `depth` of which are open.
  unfoldable pub braced_block : ℕ → ℕ → Method Text → Macro → Method Macro
  unfolding token_by
  braced_block zero depth word m = give_up
  braced_block (suc fuel) depth word m = do
    token ← token_by word
    last ← get_last_word
    let closes = is_symbol token Tokens.t_closed_brace
    let depth' =
        if closes
        then depth - 1
        else if is_symbol token Tokens.t_open_brace
        then depth + 1
        else depth
    let rest = braced_block fuel depth' word (add_macro_token last m)
    if closes && depth' == 0
        then pure m
        else if is_eof token
        then throw_err_s (codes "}") (codes "missing in macro definition")
        else rest

  -- The tokens before the end of an instruction.
  unfoldable pub plain_block : ℕ → Method Text → Macro → Method Macro
  unfolding token_by
  plain_block zero word m = give_up
  plain_block (suc fuel) word m = do
    token ← token_by word
    last ← get_last_word
    let rest = plain_block fuel word (add_macro_token last m)
    if is_symbol token Tokens.t_instruction_end || is_eof token then pure m else rest

  -- `ParseBlock`; `word` is `GetNextWord` or `GetUnparsedWord`.
  unfoldable pub parse_block : ℕ → Method Text → Macro → Method Macro
  unfolding token_by braced_block plain_block
  parse_block fuel word m = do
    token ← token_by word
    if is_symbol token Tokens.t_open_brace
        then braced_block fuel 1 word m
        else plain_block fuel word m

  -- The parameters of a macro, and the closing parenthesis. A word that is neither is skipped.
  unfoldable pub macro_parameters : ℕ → Method Text → Macro → Method Macro
  unfolding token_by expect
  macro_parameters zero next m = give_up
  macro_parameters (suc fuel) next m = do
    token ← token_by next
    name ← get_last_word
    let more = macro_parameters fuel next
    let named = (do
      after ← token_by next
      push_back_word
      if is_symbol after Tokens.t_closed_paren then pure tt else expect next Tokens.t_list_separator
      more (add_parameter name m).1)
    if is_symbol token Tokens.t_closed_paren
        then pure m
        else if is_name token
        then named
        else more m

  -- `ParseMacro`
  unfoldable pub parse_macro : ℕ → Method Text → Text → Method Macro
  unfolding expect macro_parameters parse_block
  parse_macro fuel next name = do
    expect next Tokens.t_open_paren
    m ← macro_parameters fuel next (new_macro name)
    parse_block fuel (get_unparsed_word fuel) m

  -- The loop of `ReadAList`: the token at hand, `parenCount`, `ArgCount`, `Arg` and the list. The
  -- results are the list and the tail.
  unfoldable pub alist_loop :
      ℕ
      → Method Text
      → (paren_mode : ℕ) → Token
      → (paren_count arg_count : ℕ) → (arg : Text) → List Text
      → Method (List Text × Text)
  unfolding token_by
  alist_loop zero next paren_mode token paren_count arg_count arg alist = give_up
  alist_loop (suc fuel) next paren_mode token paren_count arg_count arg alist = do
    last ← get_last_word
    let nested = paren_mode == Tokens.t_closed_paren
    let count =
        if is_symbol token Tokens.t_open_paren && nested
        then paren_count + 1
        else if is_symbol token Tokens.t_closed_paren && nested
        then paren_count - 1
        else paren_count
    let go_on = λ (args : ℕ) (a : Text) (l : List Text). (do
      following ← token_by next
      alist_loop fuel next paren_mode following count args a l)
    let longer = if is_empty arg then last else arg ++ 0x20 ∷ last
    if is_eof token
        then throw_err_s (codes "<end of file>") (codes "inside macro arguments")
        else if is_symbol token Tokens.t_list_separator && leb count 1
        then (if arg_count == 0
            then pure (alist, last)
            else if is_empty arg
            then throw_err_s (codes ",") (codes " unexpected")
            else go_on arg_count [] (alist ++ arg ∷ []))
        else if is_symbol token paren_mode && count == 0
        then pure (
          if arg_count == 0 then alist else alist ++ arg ∷ [],
          if is_symbol token Tokens.t_closed_paren then [] else last,
        )
        else if is_symbol token Tokens.t_closed_paren && ltb count 1
        then pure (alist, last)
        else go_on (arg_count + 1) longer alist

  -- `ReadAList`
  unfoldable pub read_alist : ℕ → Method Text → Method (List Text × Text)
  unfolding token_by alist_loop
  read_alist fuel next = do
    token ← token_by next
    if is_symbol token Tokens.t_open_paren
        then (do inner ← token_by next; alist_loop fuel next Tokens.t_closed_paren inner 1 0 [] [])
        else alist_loop fuel next Tokens.t_instruction_end token 0 0 [] []
