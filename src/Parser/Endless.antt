-- ===== src/Parser/Endless.antt =====
-- `ParseMacro` at the end of the input.
pub mod Tests
use emufxtool.Base.{ℕ, zero, suc, ◌≡◌, refl, Bool, true, false, none, List, [], ◌∷◌}
use emufxtool.Base.Text.{Text}
use emufxtool.Symbols.Macros.{Macro}
use emufxtool.Scanner.Tables as ScannerTables
use emufxtool.Scanner.Tables.{token_eof}
use emufxtool.Scanner.Words as ScannerWords
use emufxtool.Scanner.Words.{skip_blanks, word_from}
use emufxtool.Scanner.Stream.{get_next_char, end_parsing}
use emufxtool.Parser.State.{Library, Parser, Outcome, ok, stuck, ◌>>=◌}
use emufxtool.Parser.Reading.{get_unparsed_word, get_unparsed_token, token_of, end_stream}
use emufxtool.Parser.Blocks.{token_by, macro_parameters}
use emufxtool.Parser.Preprocessor.{
  token_in_streams, skip_comments, directive, new_word, next_word_body,
}
use emufxtool.Parser.Recursion.{get_next_word}

-- The parser when all streams have ended.
abbrev pub at_end : Parser → Text → Parser
at_end p word = record p {
  scanner = record p.scanner {
    reader = record { p_stream = none; last_char = 0 };
    last_word = word;
    read_new_word = true;
  };
  streams = [];
}

module _ (lib : Library) where
  -- The end is read again and again.
  abbrev ReadsEnd : Parser → Outcome ScannerTables.Token → Type 0
  ReadsEnd p (ok t q) = (t ≡ token_eof) × (q ≡ at_end p [])
  ReadsEnd p (Outcome.err e q) = ⊥
  ReadsEnd p stuck = Unit

  next_token-ReadsEnd :
      (fuel : ℕ) (p : Parser) (word : Text)
      → ReadsEnd p (token_by lib (get_next_word lib fuel) (at_end p word))
  unfolding token_by get_next_word next_word_body new_word token_in_streams skip_comments
      get_unparsed_token end_stream token_of ScannerWords.get_next_word skip_blanks word_from
      get_next_char end_parsing ScannerTables.token
  next_token-ReadsEnd zero p word = tt
  next_token-ReadsEnd (suc zero) p word = tt
  next_token-ReadsEnd (suc (suc zero)) p word = tt
  next_token-ReadsEnd (suc (suc (suc fuel))) p word = (refl, refl)

  again :
      (fuel rounds : ℕ) (p : Parser) (word : Text) (m : Macro) (o : Outcome ScannerTables.Token)
      → token_by lib (get_next_word lib fuel) (at_end p word) ≡ o
      → ReadsEnd p o
      → macro_parameters lib rounds (get_next_word lib fuel) m (at_end p []) ≡ stuck
      → macro_parameters lib (suc rounds) (get_next_word lib fuel) m (at_end p word) ≡ stuck
  unfolding macro_parameters
  again fuel rounds p word m (ok t q) e (eof, end) rest = rw (e, ◌>>=◌, eof, end) rest
  again fuel rounds p word m (Outcome.err x q) e none_thrown rest = absurd none_thrown
  again fuel rounds p word m stuck e h rest = rw (e, ◌>>=◌) refl

  -- When all streams have ended, the loop over the parameters of a macro does not end, however
  -- much fuel its rounds and its words have: it neither returns nor throws.
  pub macro_parameters-stuck :
      (fuel rounds : ℕ) (p : Parser) (word : Text) (m : Macro)
      → macro_parameters lib rounds (get_next_word lib fuel) m (at_end p word) ≡ stuck
  unfolding macro_parameters
  macro_parameters-stuck fuel zero p word m = refl
  macro_parameters-stuck fuel (suc rounds) p word m =
      again fuel rounds p word m _ refl (next_token-ReadsEnd fuel p word)
        (macro_parameters-stuck fuel rounds p [] m)
