-- ===== src/Parser/Keeps/Words.antt =====
-- Reading words, blocks and arguments keeps the program.
use emufxtool.Base.{Option-cases, inl, inr, ℕ, zero, suc, List}
use emufxtool.Base.Text.{Text}
use emufxtool.Symbols.Macros.{Macro}
use emufxtool.Scanner.Tables.{Token}
use emufxtool.Scanner.Words as ScannerWords
use emufxtool.Compiler.Objects.{Operand, resolve}
use emufxtool.Scanner.Stream.{begin_parsing, string_stream}
use emufxtool.Expression.Trees.{eval}
use emufxtool.Parser.State.{Library, Error, Method}
use emufxtool.Parser.Reading.{
  throw_err_s, throw_err, throw_err_t, push_back_word, begin_text, end_stream, get_unparsed_word,
  get_options, add_macro, report, value_of, get_unparsed_token, get_last_token,
}
use emufxtool.Parser.Blocks.{
  token_by, expect, expect_name, braced_block, plain_block, parse_block, macro_parameters,
  parse_macro, alist_loop, read_alist,
}
use emufxtool.Parser.Keeps.{Closed, Keeps, keeps_rules}

pub throw_err_s-Keeps {ℓ} :
    {A : Type ℓ} (sym msg : Text) → Keeps Closed (throw_err_s {A = A} sym msg)
unfolding throw_err_s
throw_err_s-Keeps sym msg = record { at = λ p h. h }

pub throw_err-Keeps {ℓ} : {A : Type ℓ} (msg : Text) → Keeps Closed (throw_err {A = A} msg)
unfolding throw_err throw_err_s
throw_err-Keeps msg = record { at = λ p h. h }

pub throw_err_t-Keeps {ℓ} : {A : Type ℓ} (t : Token) → Keeps Closed (throw_err_t {A = A} t)
unfolding throw_err_t throw_err throw_err_s
throw_err_t-Keeps t = record { at = λ p h. h }

pub push_back_word-Keeps : Keeps Closed push_back_word
unfolding push_back_word
push_back_word-Keeps = record { at = λ p h. h }

pub begin_text-Keeps : (text name : Text) → Keeps Closed (begin_text text name)
unfolding begin_text throw_err_s
begin_text-Keeps text name = record {
  at = λ p h.
      elim (Option-cases (
        begin_parsing (string_stream text name)
          (record { reader = p.scanner.reader; streams = p.streams }))) [
            | inl full ↦ rw (full, begin_text) h
            | inr (entered, result) ↦ rw (result, begin_text) h
          ];
}

pub end_stream-Keeps : Keeps Closed end_stream
unfolding end_stream
end_stream-Keeps = record { at = λ p h. h }

pub get_unparsed_word-Keeps : (fuel : ℕ) → Keeps Closed (get_unparsed_word fuel)
unfolding get_unparsed_word
get_unparsed_word-Keeps fuel = record {
  at = λ p h. elim (Option-cases (ScannerWords.get_next_word fuel p.scanner)) [
    | inl out ↦ rw (out, get_unparsed_word) tt
    | inr (found, result) ↦ rw (result, get_unparsed_word) h
  ];
}

pub get_options-Keeps : (mask : ℕ) → Keeps Closed (get_options mask)
unfolding get_options
get_options-Keeps mask = record { at = λ p h. h }

pub add_macro-Keeps : (name : Text) (m : Macro) → Keeps Closed (add_macro name m)
unfolding add_macro
add_macro-Keeps name m = record { at = λ p h. h }

pub report-Keeps : (e : Error) → Keeps Closed (report e)
unfolding report
report-Keeps e = record { at = λ p h. h }

pub value_of-Keeps : (o : Operand) → Keeps Closed (value_of o)
unfolding value_of
value_of-Keeps o = record {
  at = λ p h. elim (Option-cases (resolve p.program o)) [
    | inl dangling ↦ rw (dangling, value_of) tt
    | inr (e, resolved) ↦ elim (Option-cases (eval 0 e)) [
      | inl undefined ↦ rw (resolved, value_of, undefined) tt
      | inr (v, value) ↦ rw (resolved, value_of, value) h
    ]
  ];
}

pub ruleset word_rules = (
  keeps_rules, throw_err_s-Keeps, throw_err-Keeps, throw_err_t-Keeps, push_back_word-Keeps,
  begin_text-Keeps, end_stream-Keeps, get_unparsed_word-Keeps, get_options-Keeps, add_macro-Keeps,
  report-Keeps, value_of-Keeps,
)

module _ (lib : Library) where
  pub get_unparsed_token-Keeps : (fuel : ℕ) → Keeps Closed (get_unparsed_token lib fuel)
  unfolding get_unparsed_token
  get_unparsed_token-Keeps fuel = search word_rules

  pub get_last_token-Keeps : Keeps Closed (get_last_token lib)
  unfolding get_last_token
  get_last_token-Keeps = record { at = λ p h. h }

  pub token_by-Keeps : {next : Method Text} → Keeps Closed next → Keeps Closed (token_by lib next)
  unfolding token_by
  token_by-Keeps k = search word_rules

  pub expect-Keeps :
      {next : Method Text} (t : ℕ) → Keeps Closed next → Keeps Closed (expect lib next t)
  unfolding expect
  expect-Keeps t k = search (word_rules, token_by-Keeps)

  pub expect_name-Keeps :
      {next : Method Text} → Keeps Closed next → Keeps Closed (expect_name lib next)
  unfolding expect_name
  expect_name-Keeps k = search (word_rules, token_by-Keeps)

  braced_block-Keeps :
      (fuel depth : ℕ) {next : Method Text} (m : Macro)
      → Keeps Closed next
      → Keeps Closed (braced_block lib fuel depth next m)
  unfolding braced_block
  braced_block-Keeps zero depth m k = search word_rules
  braced_block-Keeps (suc fuel) depth m k =
      search (word_rules, token_by-Keeps, braced_block-Keeps fuel)

  plain_block-Keeps :
      (fuel : ℕ) {next : Method Text} (m : Macro)
      → Keeps Closed next
      → Keeps Closed (plain_block lib fuel next m)
  unfolding plain_block
  plain_block-Keeps zero m k = search word_rules
  plain_block-Keeps (suc fuel) m k = search (word_rules, token_by-Keeps, plain_block-Keeps fuel)

  pub parse_block-Keeps :
      (fuel : ℕ) {next : Method Text} (m : Macro)
      → Keeps Closed next
      → Keeps Closed (parse_block lib fuel next m)
  unfolding parse_block
  parse_block-Keeps fuel m k =
      search (word_rules, token_by-Keeps, braced_block-Keeps, plain_block-Keeps)

  macro_parameters-Keeps :
      (fuel : ℕ) {next : Method Text} (m : Macro)
      → Keeps Closed next
      → Keeps Closed (macro_parameters lib fuel next m)
  unfolding macro_parameters
  macro_parameters-Keeps zero m k = search word_rules
  macro_parameters-Keeps (suc fuel) m k =
      search (word_rules, token_by-Keeps, expect-Keeps, macro_parameters-Keeps fuel) depth 16

  pub parse_macro-Keeps :
      (fuel : ℕ) {next : Method Text} (name : Text)
      → Keeps Closed next
      → Keeps Closed (parse_macro lib fuel next name)
  unfolding parse_macro
  parse_macro-Keeps fuel name k =
      search (word_rules, expect-Keeps, macro_parameters-Keeps, parse_block-Keeps)

  alist_loop-Keeps :
      (fuel : ℕ) {next : Method Text} (mode : ℕ) (t : Token) (parens args : ℕ) (arg : Text)
      (alist : List Text)
      → Keeps Closed next
      → Keeps Closed (alist_loop lib fuel next mode t parens args arg alist)
  unfolding alist_loop
  alist_loop-Keeps zero mode t parens args arg alist k = search word_rules
  alist_loop-Keeps (suc fuel) mode t parens args arg alist k =
      search (word_rules, token_by-Keeps, alist_loop-Keeps fuel) depth 16

  pub read_alist-Keeps :
      (fuel : ℕ) {next : Method Text} → Keeps Closed next → Keeps Closed (read_alist lib fuel next)
  unfolding read_alist
  read_alist-Keeps fuel k = search (word_rules, token_by-Keeps, alist_loop-Keeps)
