-- ===== src/Scanner/Tests.antt =====
-- Runs of the scanner.
use emufxtool.Base.{◌≡◌, ◌≤◌, refl, true, none, some, [], ◌∷◌, ◌++◌, length, arith, if◌then◌else◌}
use emufxtool.Base.Text.{Text, codes, text_eq, text_key, is_c_string-IsCString}
use emufxtool.Base.Table.{lookup}
use emufxtool.Scanner.Tables.{
  Rules, new_rules, Token, symbol, begins_separator, is_blank, make_sep, add_token, get_token,
}
use emufxtool.Scanner.Stream.{string_stream, Reader, Stack, begin_parsing}
use emufxtool.Scanner.Words.{Scanner, get_next_word}
use emufxtool.Scanner.Literals.{hex_pair, hexcnv, escape, literal, literal_loop}
use emufxtool.Scanner.Reading.{Ahead}
use emufxtool.Scanner.Splitting.{span, split_word}
use emufxtool.Scanner.NextWord.{get_next_word-split_word}
use emufxtool.Scanner.TableLaws.{get_token-add_token, IsBracketed, end_parsing-begin_parsing}
use emufxtool.Scanner.Unescape.{literal-escape, literal_loop-size}

-- `<<` and `<` are separators, the space is a blank.
abbrev shift_rules : Rules
shift_rules = record new_rules {
  separators = make_sep 0x3c 0x3c ∷ make_sep 0x3c 0 ∷ [];
  blanks = 0x20 ∷ [];
}

abbrev source : Text
source = codes " ab<<c"

abbrev reader : Reader
reader = record { p_stream = some (string_stream source (codes "test")); last_char = 0 }

abbrev scanner : Scanner
scanner = record { rules = shift_rules; reader = reader; last_word = []; read_new_word = true }

reader-Ahead : Ahead reader source
reader-Ahead = record {
  stream = string_stream source (codes "test");
  is_stream = refl;
  inside = omega arith;
  text = refl;
}

split_word-source : split_word shift_rules source ≡ (codes "ab", codes "<<c")
unfolding is_blank begins_separator
split_word-source = refl

get_next_word-split_word_example :
    let (word, rest) = split_word shift_rules source in
    (r : Reader) × (get_next_word 10 scanner
      ≡ some (word, record scanner { reader = r; last_word = word }))
    × Ahead r rest
    × ((span (is_blank shift_rules) source).0 ++ (word ++ rest) ≡ source)
get_next_word-split_word_example =
    get_next_word-split_word 10 scanner source refl reader-Ahead (is_c_string-IsCString source refl)
      (omega arith)

get_token-add_token_example : get_token (add_token (codes "x") 5 new_rules) (codes "x") ≡ (
    if text_eq (codes "x") (codes "x")
    then elim (lookup (codes "x") new_rules.tokens) as (λ _. Token) [
      | none ↦ symbol 5
      | some old ↦ symbol old
    ]
    else get_token new_rules (codes "x"))
get_token-add_token_example = get_token-add_token new_rules (codes "x") (codes "x") 5

abbrev stack : Stack
stack = record { reader = reader; streams = [] }

end_parsing-begin_parsing_example : IsBracketed stack (begin_parsing (string_stream [] []) stack)
end_parsing-begin_parsing_example = end_parsing-begin_parsing (string_stream [] []) stack

literal-escape_example :
    literal (0x22 ∷ (escape new_rules (0x61 ∷ 0x0a ∷ 0xe8 ∷ []) ++ 0x22 ∷ []))
    ≡ some (0x61 ∷ 0x0a ∷ 0xe8 ∷ [])
literal-escape_example =
    literal-escape new_rules (0x61 ∷ 0x0a ∷ 0xe8 ∷ []) refl
      (ground arith, (ground arith, (ground arith, tt)))

literal_loop-hex : literal_loop 0 (codes "a\\x41\"") ≡ some (codes "aA")
unfolding literal_loop hex_pair hexcnv
literal_loop-hex = refl

literal_loop-size_example : length (codes "aA") ≤ length (codes "a\\x41\"")
literal_loop-size_example = literal_loop-size 0 (codes "a\\x41\"") (codes "aA") literal_loop-hex
