-- ===== src/Parser/Preprocessor.antt =====
-- `emuParser::GetNextWord`. `next` is its call of itself, `expression` its call of
-- `ParseExpression`.
use emufxtool.Base.{ℕ, zero, suc, true, false, [], ◌∷◌, ◌||◌, if◌then◌else◌}
use emufxtool.Base.Text.{Text, text_key, codes}
use emufxtool.Scanner.Tables.{Token}
use emufxtool.Compiler.Objects.{Operand}
use emufxtool.Parser.Tokens
use emufxtool.Parser.State.{Library, Method, ok, pure, ◌>>=◌, ◌>>◌, gets, modify, give_up}
use emufxtool.Parser.Reading.{
  inttos, line_of, stream_name_of, get_last_word, begin_text, end_stream, has_no_stream,
  get_unparsed_token,
}
use emufxtool.Parser.Blocks.{is_symbol, is_eof, is_name}
use emufxtool.Parser.Directives.{
  if_directive, message_directive, for_directive, defined_directive, eval_directive,
  include_directive, macro_call, define_directive,
}

module _ (lib : Library) where
  -- The first token, where streams that have ended are left.
  unfoldable pub token_in_streams : ℕ → Method Token
  unfolding get_unparsed_token end_stream
  token_in_streams zero = give_up
  token_in_streams (suc fuel) = do
    t ← get_unparsed_token lib fuel
    let leave = (do
      left ← end_stream
      let more = token_in_streams fuel
      if left then more else pure t)
    if is_eof t then leave else pure t

  -- The rest of a comment.
  unfoldable pub end_of_comment : ℕ → Method (Unit {0})
  unfolding get_unparsed_token
  end_of_comment zero = give_up
  end_of_comment (suc fuel) = do
    t ← get_unparsed_token lib fuel
    let more = end_of_comment fuel
    if is_symbol t Tokens.t_end_comment || is_eof t then pure tt else more

  unfoldable pub skip_comments : ℕ → Token → Method Token
  unfolding end_of_comment get_unparsed_token
  skip_comments zero t = give_up
  skip_comments (suc fuel) t =
      let skip = (do
        end_of_comment fuel
        t' ← get_unparsed_token lib fuel
        skip_comments fuel t') in
      if is_symbol t Tokens.t_begin_comment then skip else pure t

  -- The `switch`; the word that is returned becomes the last word.
  unfoldable pub directive : ℕ → Method Text → Method Operand → Token → Text → Method Text
  unfolding if_directive message_directive for_directive defined_directive eval_directive
      include_directive macro_call define_directive
  directive fuel next expression t word =
      if is_symbol t Tokens.t_if
      then if_directive lib fuel next expression
      else if is_symbol t Tokens.t_warn
      then message_directive lib fuel next false
      else if is_symbol t Tokens.t_err
      then message_directive lib fuel next true
      else if is_symbol t Tokens.t_for
      then for_directive lib fuel next expression
      else if is_symbol t Tokens.t_defined
      then defined_directive lib fuel (codes "1") (codes "0")
      else if is_symbol t Tokens.t_undefined
      then defined_directive lib fuel (codes "0") (codes "1")
      else if is_symbol t Tokens.t_eval
      then eval_directive lib next expression
      else if is_symbol t Tokens.t_current_file
      then (do name ← gets stream_name_of; begin_text name (codes ".file"); next)
      else if is_symbol t Tokens.t_current_line
      then (do line ← gets line_of; begin_text (inttos line) (codes ".line"); next)
      else if is_symbol t Tokens.t_include
      then include_directive lib fuel next
      else if is_name t
      then macro_call lib fuel next word
      else if is_symbol t Tokens.t_define
      then define_directive lib fuel next
      else pure word

  -- `GetNextWord` where a new word is to be read. At the end of all streams it returns `\xff`
  -- and keeps the last word of the scanner.
  unfoldable pub new_word : ℕ → Method Text → Method Operand → Method Text
  unfolding token_in_streams skip_comments directive
  new_word fuel next expression = do
    first ← token_in_streams fuel
    t ← skip_comments fuel first
    word ← get_last_word
    empty ← gets has_no_stream
    let found = (do
      w ← directive fuel next expression t word
      modify (λ p. record p { scanner = record p.scanner { last_word = w } })
      pure w)
    if is_eof t then (if empty then pure (0xff ∷ []) else next) else found

  unfoldable pub next_word_body : ℕ → Method Text → Method Operand → Method Text
  unfolding new_word
  next_word_body fuel next expression p = elim p.scanner.read_new_word [
    | true ↦ new_word fuel next expression p
    | false ↦
        ok p.scanner.last_word (record p { scanner = record p.scanner { read_new_word = true } })
  ]
