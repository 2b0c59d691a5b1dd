-- ===== src/Parser/Recovery/Tests.antt =====
-- A statement that is not one, and what follows.
use emufxtool.Base.{◌≡◌, refl, true, false, none, some, [], ◌∷◌, arith}
use emufxtool.Base.Text.{Text, codes, is_c_string-IsCString}
use emufxtool.Expression.Trees.{type_none}
use emufxtool.Scanner.Tables.{Rules, is_blank, begins_separator, token}
use emufxtool.Scanner.Stream.{
  Reader, string_stream, get_next_char, get_char, push_back, push_back_char,
}
use emufxtool.Scanner.Reading.{Ahead}
use emufxtool.Scanner.Words as ScannerWords
use emufxtool.Scanner.Words.{skip_blanks, word_from, plain_word}
use emufxtool.Parser.Tokens
use emufxtool.Parser.Recursion.{get_next_word}
use emufxtool.Parser.Preprocessor.{next_word_body}
use emufxtool.Parser.State.{Library, Parser, Error, err, new_parser}
use emufxtool.Parser.Program.{patch_body, patch_round, parse_patch}
use emufxtool.Parser.Recovery.{
  IsRecovered, NotThrown, patch_round-IsRecovered, parse_patch-NotThrown,
}

-- A library that finds no numbers and no files.
abbrev pub bare_library : Library
bare_library = record {
  sscanf_li = λ s. false;
  sscanf_lf = λ s. false;
  scan_fraction = λ s. none;
  scan_time = λ s. none;
  open_file = λ s. none;
  unset_type = type_none;
}

abbrev few_rules : Rules
few_rules = record {
  separators = 0x3b ∷ [];
  blanks = 0x20 ∷ [];
  tokens = (codes ";", Tokens.t_instruction_end) ∷ [];
  delimiter_begin = 0x22;
  delimiter_end = 0x22;
}

abbrev input : Text
input = codes "? x; y"

abbrev parser_at : Reader → Text → Parser
parser_at r word = record new_parser {
  scanner = record { rules = few_rules; reader = r; last_word = word; read_new_word = true };
}

abbrev pub start : Parser
start =
    parser_at (record { p_stream = some (string_stream input (codes "main")); last_char = 0 }) []

abbrev behind : Reader
behind = record {
  p_stream = some (record (string_stream input (codes "main")) {
    char_ptr = 2;
    read_new_char = false;
    last_char = 0x20;
  });
  last_char = 0x20;
}

abbrev complaint : Error
complaint = record {
  symbol = codes "?";
  message = codes " found where var, const, define, macro or instruction expected";
  streams = codes "main";
  line = 1;
}

thrown : patch_body bare_library 10 [] start ≡ err complaint (parser_at behind (codes "?"))
unfolding patch_body get_next_word next_word_body ScannerWords.get_next_word skip_blanks
    get_next_char get_char is_blank word_from begins_separator plain_word push_back push_back_char
    token
thrown = refl

behind-Ahead : Ahead behind (codes " x; y")
behind-Ahead = record {
  stream = record (string_stream input (codes "main")) {
    char_ptr = 2;
    read_new_char = false;
    last_char = 0x20;
  };
  is_stream = refl;
  inside = omega arith;
  text = refl;
}

patch_round-IsRecovered_example :
    IsRecovered bare_library [] complaint
      (parser_at behind (codes "?"))
      (codes " x; y")
      (patch_round bare_library 10 [] start)
patch_round-IsRecovered_example =
    patch_round-IsRecovered bare_library 10 [] start (parser_at behind (codes "?")) complaint
      (codes " x; y") thrown refl behind-Ahead (is_c_string-IsCString (codes " x; y") refl)
      (omega arith)

parse_patch-NotThrown_example : NotThrown (parse_patch bare_library 10 start)
parse_patch-NotThrown_example = parse_patch-NotThrown bare_library 10 start
