-- ===== src/Parser/Chains/Tests.antt =====
-- A sum of numbers, read from text.
use emufxtool.Base.{ℕ, ◌≡◌, refl, Bool, true, false, none, some, [], ◌∷◌, ◌&&◌, leb, arith}
use emufxtool.Base.Text.{Text, codes}
use emufxtool.Expression.Trees.{type_none}
use emufxtool.Scanner.Tables.{Rules, symbol, token, is_blank, is_separator, begins_separator}
use emufxtool.Scanner.Stream.{string_stream, get_next_char, get_char, push_back, push_back_char}
use emufxtool.Compiler.Objects.{Operand, constant, combined}
use emufxtool.Parser.Operators.{t_plus, t_times, expr_op_of}
use emufxtool.Parser.Order.{ReadsAs, Chain}
use emufxtool.Scanner.Words as ScannerWords
use emufxtool.Scanner.Words.{skip_blanks, word_from, plain_word, separator_word}
use emufxtool.Expression.Numbers.{isnum, is_digit, from_char, char2base, char2base_from, digit_word}
use emufxtool.Parser.Numerals.{int_number}
use emufxtool.Parser.Preprocessor.{next_word_body}
use emufxtool.Parser.Tokens
use emufxtool.Parser.State.{Library, Parser, Method, ok, new_parser}
use emufxtool.Parser.Expressions.{op_token, element_body, expression_loop}
use emufxtool.Parser.Recursion.{get_next_word, parse_element}
use emufxtool.Flags.{v_read, v_value}
use Prim.Native.Nat.{bit_or}
use emufxtool.Parser.Blocks.{token_by}
use emufxtool.Parser.Chains.{Elements, last, more, pushed, expression_loop-ReadsAs}

abbrev begins_digit : Text → Bool
begins_digit [] = false
begins_digit (c ∷ cs) = leb 0x30 c && leb c 0x39

abbrev digits_library : Library
digits_library = record {
  sscanf_li = begins_digit;
  sscanf_lf = begins_digit;
  scan_fraction = λ s. none;
  scan_time = λ s. none;
  open_file = λ s. none;
  unset_type = type_none;
}

abbrev sum_rules : Rules
sum_rules = record {
  separators = 0x2a ∷ 0x2b ∷ 0x3b ∷ [];
  blanks = 0x20 ∷ [];
  tokens =
      (codes "*", Tokens.t_times)
      ∷ (codes "+", Tokens.t_plus)
      ∷ (codes ";", Tokens.t_instruction_end)
      ∷ [];
  delimiter_begin = 0x22;
  delimiter_end = 0x22;
}

-- The parser before a place in the text: the stream has read `ptr` characters, the last of which
-- it may have been given back.
abbrev parser_at : (ptr : ℕ) (new : Bool) (stream_char last_char : ℕ) → Text → Parser
parser_at ptr new stream_char last_char word = record new_parser {
  scanner = record {
    rules = sum_rules;
    reader = record {
      p_stream = some (record (string_stream (codes "1+2*3;") (codes "main")) {
        char_ptr = ptr;
        read_new_char = new;
        last_char = stream_char;
      });
      last_char = last_char;
    };
    last_word = word;
    read_new_word = true;
  };
}

abbrev read_to : (ptr char : ℕ) → Text → Parser
read_to ptr char word = parser_at ptr false char char word

abbrev literal : ℕ → Operand
literal n = constant (bit_or v_read v_value) n type_none

abbrev next : Method Text
next = get_next_word digits_library 5

abbrev element : Method Operand
element = parse_element digits_library 5

abbrev end : Parser
end = parser_at 6 true 0x3b 0 (codes ";")

abbrev sum : Chain Operand
sum = (t_plus, literal 2) ∷ (t_times, literal 3) ∷ []

sum-Elements : Elements digits_library next element (parser_at 0 true 0 0 []) (literal 1) sum end
unfolding get_next_word element_body next_word_body ScannerWords.get_next_word skip_blanks
    get_next_char get_char is_blank word_from begins_separator plain_word token int_number isnum
    is_digit from_char push_back push_back_char char2base token_by separator_word is_separator
    op_token expr_op_of char2base_from digit_word
sum-Elements =
    more {p' = read_to 2 0x2b (codes "1")} {p'' = read_to 3 0x32 (codes "+")}
      {t = symbol Tokens.t_plus} refl refl refl
      (more {p' = read_to 4 0x2a (codes "2")} {p'' = read_to 5 0x33 (codes "*")}
        {t = symbol Tokens.t_times} refl refl refl
        (last {p' = read_to 6 0x3b (codes "3")} {t = symbol Tokens.t_instruction_end} refl refl
          refl))

expression_loop-ReadsAs_example :
    (e : Operand) × (expression_loop digits_library 5 next element [] [] (parser_at 0 true 0 0 [])
      ≡ ok e (pushed end))
    × ReadsAs combined 0 (literal 1) sum e
expression_loop-ReadsAs_example =
    expression_loop-ReadsAs digits_library next element 5 sum-Elements (omega arith)
