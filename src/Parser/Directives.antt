-- ===== src/Parser/Directives.antt =====
-- The directives of `emuParser::GetNextWord`, and the expansion of macros. `next` is its call of
-- itself, `expression` its call of `ParseExpression`. Listings are left out.
use emufxtool.Base.{
  ℕ, zero, suc, ◌+◌, ◌-◌, ◌^◌, ◌%◌, Bool, none, some, List, [], ◌∷◌, ◌++◌, ◌==◌, leb, length,
  if◌then◌else◌,
}
use emufxtool.Base.Text.{Text, text_eq, text_key, codes}
use emufxtool.Base.Table.{lookup}
use emufxtool.Words.{is_set, add32}
use emufxtool.Symbols.Macros.{Macro, new_macro, is_macro_empty, arg_count, add_parameter, expand}
use emufxtool.Scanner.Stream.{find_stream}
use emufxtool.Scanner.Literals.{literal}
use emufxtool.Compiler.Objects.{Operand}
use emufxtool.Parser.Tokens
use emufxtool.Parser.State.{Library, Method, err, pure, ◌>>=◌, ◌>>◌, gets, defined}
use emufxtool.Parser.Reading.{
  inttos, num_to_string, line_of, stream_name_of, throw_err, throw_err_s, get_last_word, begin_text,
  get_unparsed_word, get_unparsed_token, get_last_token, resolve_symbol, add_macro, value_of,
}
use emufxtool.Parser.Blocks.{
  is_symbol, is_name, expect, expect_name, parse_block, parse_macro, read_alist,
}

-- `Macro.Expand()`
abbrev expansion : Macro → List Text → Method Text
expansion m arguments = defined (expand m arguments)

-- The values of `for (i = v1; step * i <= step * v2; i += step)`, by the rounds that are left.
unfoldable pub for_loop : ℕ → (step i : ℕ) → Macro → Text → Method Text
unfolding inttos
for_loop zero step i m acc = pure acc
for_loop (suc rounds) step i m acc = do
  text ← expansion m (inttos i ∷ [])
  for_loop rounds step (add32 i step) m (acc ++ (text ++ codes " "))

-- An `int` by its distance from the least one.
abbrev from_least : ℕ → ℕ
from_least v = (v + 2 ^ 31) % 2 ^ 32

unfoldable pub for_text : ℕ → ℕ → Macro → Method Text
unfolding for_loop
for_text v1 v2 m =
    let a = from_least v1 in
    let b = from_least v2 in
    if leb a b
    then for_loop (suc (b - a)) 1 v1 m []
    else for_loop (suc (a - b)) (2 ^ 32 - 1) v1 m []

module _ (lib : Library) where
  -- `case tIf`
  unfoldable pub if_directive : ℕ → Method Text → Method Operand → Method Text
  unfolding parse_block get_unparsed_token begin_text value_of
  if_directive fuel next expression = do
    e ← expression
    m ← parse_block lib fuel (get_unparsed_word fuel) (new_macro (codes ".if()"))
    t ← get_unparsed_token lib fuel
    last ← get_last_word
    let is_else = is_symbol t Tokens.t_else
    other ←
        if is_else
        then parse_block lib fuel (get_unparsed_word fuel) (new_macro (codes ".else()"))
        else pure (new_macro (codes ".else()"))
    let tail = if is_else then [] else last
    v ← value_of e
    let taken = (do text ← expansion m []; begin_text (text ++ (codes " " ++ tail)) m.name)
    let alternative = (do text ← expansion other []; begin_text text other.name)
    if is_set v
        then taken
        else if is_macro_empty other
        then begin_text (codes " " ++ tail) m.name
        else alternative
    next

  -- `case tWarn` and `case tErr`
  unfoldable pub message_directive : ℕ → Method Text → Bool → Method Text
  unfolding parse_block
  message_directive fuel next is_error = do
    m ← parse_block lib fuel next (new_macro (codes ".err"))
    text ← expansion m []
    if is_error then throw_err_s (codes "user error") text else next

  -- `case tFor`
  unfoldable pub for_directive : ℕ → Method Text → Method Operand → Method Text
  unfolding expect expect_name parse_block value_of for_text begin_text
  for_directive fuel next expression = do
    name ← expect_name lib next
    expect lib next Tokens.t_assign
    e1 ← expression
    expect lib next Tokens.t_colon
    e2 ← expression
    let start = (add_parameter name (new_macro (codes "for"))).1
    m ← parse_block lib fuel (get_unparsed_word fuel) start
    v1 ← value_of e1
    v2 ← value_of e2
    text ← for_text v1 v2 m
    begin_text text m.name
    next

  -- `case tDefined` and `case tUndefined`
  unfoldable pub defined_directive : ℕ → (if_so if_not : Text) → Method Text
  unfolding get_last_token
  defined_directive fuel if_so if_not = do
    name ← get_unparsed_word fuel
    t ← get_last_token lib
    known ← gets (resolve_symbol name)
    if is_name t
        then pure (elim known [ none ↦ if_not | some _ ↦ if_so ])
        else throw_err_s name (codes "found where <IDENTIFIER> expected")

  -- `case tEval`. The word behind the expression has been pushed back.
  unfoldable pub eval_directive : Method Text → Method Operand → Method Text
  unfolding value_of begin_text
  eval_directive next expression = do
    e ← expression
    fresh ← gets (λ p. p.scanner.read_new_word)
    tail ← if fresh then pure [] else next
    v ← value_of e
    begin_text (inttos v ++ (codes " " ++ (tail ++ codes " "))) (codes ".eval")
    next

  -- `case tInclude`. Opening a file changes no state of the parser. Behind the characters of a file comes that of `EOF`.
  unfoldable pub include_directive : ℕ → Method Text → Method Text
  unfolding get_unparsed_word begin_text
  include_directive fuel next = do
    word ← get_unparsed_word fuel
    name ← defined (literal word)
    open_already ← gets (λ p. find_stream name p.streams)
    current ← gets stream_name_of
    opened ← pure (lib.open_file name)
    let enter = λ (content : Text). (do begin_text (content ++ 0xff ∷ []) name; next)
    elim open_already [
      | some _ ↦ throw_err (codes "circular include references not allowed")
      | none ↦
          if text_eq current name
          then throw_err (codes "circular include references not allowed")
          else elim opened [
            | none ↦ (do last ← get_last_word; throw_err_s last (codes ": could not open"))
            | some content ↦ enter content
          ]
    ]

  -- `case TOKEN_IDENTIFIER`
  unfoldable pub macro_call : ℕ → Method Text → Text → Method Text
  unfolding read_alist begin_text
  macro_call fuel next name = do
    known ← gets (λ p. lookup name p.macros)
    elim known [
      | none ↦ pure name
      | some m ↦ (do
        (arguments, tail) ← read_alist lib fuel next
        text ←
            if length arguments == arg_count m
            then expansion m arguments
            else throw_err_s m.name
                (codes "requires " ++ (inttos (arg_count m) ++ codes " arguments"))
        begin_text (text ++ (codes " " ++ tail)) m.name
        next)
    ]

  -- The exception of `case tDefine`, with the line where the names of the streams should be.
  unfoldable pub throw_err_macro : Text → Method Macro
  unfolding line_of num_to_string
  throw_err_macro name p =
      err
        (record {
          symbol = name;
          message = codes "is not a valid macro name";
          streams = num_to_string (line_of p);
          line = 0;
        })
        p

  -- `case tDefine`
  unfoldable pub define_directive : ℕ → Method Text → Method Text
  unfolding get_unparsed_token parse_macro add_macro throw_err_macro
  define_directive fuel next = do
    t ← get_unparsed_token lib fuel
    name ← get_last_word
    m ← if is_name t then parse_macro lib fuel next name else throw_err_macro name
    add_macro name m
    next
