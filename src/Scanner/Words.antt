-- ===== src/Scanner/Words.antt =====
-- `Scanner::GetNextWord`. Its loops run on fuel; `none` means that the fuel ran out.
use emufxtool.Base.{
  ℕ, zero, suc, Bool, true, false, Option, none, some, [], ◌∷◌, ◌++◌, ◌==◌, ◌&&◌, ◌||◌, not,
  if◌then◌else◌,
}
use emufxtool.Base.Text.{Text}
use emufxtool.Words.{is_set}
use emufxtool.Scanner.Tables.{Rules, is_separator, begins_separator, is_blank}
use emufxtool.Scanner.Stream.{Reader, get_next_char, push_back}

pub record Scanner : Type 0 where
  pub rules : Rules
  pub reader : Reader
  pub last_word : Text
  pub read_new_word : Bool

-- The first character that is no blank.
unfoldable pub skip_blanks : Rules → ℕ → Reader → Option (ℕ × Reader)
skip_blanks rules zero r = none
skip_blanks rules (suc fuel) r =
    let (c, r') = get_next_char r in
    elim (is_set c && is_blank rules c) [ true ↦ skip_blanks rules fuel r' | false ↦ some (c, r') ]

-- The rest of a string.
unfoldable pub string_word : Rules → ℕ → Text → Reader → Option (Text × Reader)
string_word rules zero word r = none
string_word rules (suc fuel) word r =
    let (c, r') = get_next_char r in
    elim (is_set c && not (c == rules.delimiter_end)) [
      | true ↦ string_word rules fuel (word ++ c ∷ []) r'
      | false ↦ some (if is_set c then word ++ c ∷ [] else word, r')
    ]

-- The rest of a separator that begins with `c`.
unfoldable pub separator_word : Rules → ℕ → Reader → Text × Reader
separator_word rules c r =
    let (c2, r') = get_next_char r in
    if is_set c2
    then if is_separator rules c c2 then (c ∷ c2 ∷ [], r') else (c ∷ [], push_back r')
    else (c ∷ [], r')

-- The rest of any other word, from the character `c` on.
unfoldable pub plain_word : Rules → ℕ → Text → ℕ → Reader → Option (Text × Reader)
plain_word rules zero word c r = none
plain_word rules (suc fuel) word c r = elim (is_set c) [
  | false ↦ some (word, r)
  | true ↦ elim (begins_separator rules c || is_blank rules c) [
    | true ↦ some (word, push_back r)
    | false ↦ let (c', r') = get_next_char r in plain_word rules fuel (word ++ c ∷ []) c' r'
  ]
]

-- The word that begins with `c`.
unfoldable pub word_from : Rules → ℕ → ℕ → Reader → Option (Text × Reader)
word_from rules fuel c r =
    if not (is_set c)
    then some ([], r)
    else if c == rules.delimiter_begin
    then string_word rules fuel (c ∷ []) r
    else if begins_separator rules c
    then some (separator_word rules c r)
    else plain_word rules fuel [] c r

unfoldable pub get_next_word : ℕ → Scanner → Option (Text × Scanner)
get_next_word fuel sc = elim sc.read_new_word [
  | false ↦ some (sc.last_word, record sc { read_new_word = true })
  | true ↦ elim (skip_blanks sc.rules fuel sc.reader) [
    | none ↦ none
    | some first ↦ elim (word_from sc.rules fuel first.0 first.1) [
      | none ↦ none
      | some found ↦ some (found.0, record sc { reader = found.1; last_word = found.0 })
    ]
  ]
]

-- `PushBackWord`
unfoldable pub push_back_word : Scanner → Scanner
push_back_word sc = record sc { read_new_word = false }
