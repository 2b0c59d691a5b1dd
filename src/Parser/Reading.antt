-- ===== src/Parser/Reading.antt =====
-- The methods of the parser that read words, and look up and add symbols.
use emufxtool.Base.{
  set, ℕ, zero, suc, ◌+◌, ◌-◌, ◌/◌, ◌%◌, ◌^◌, Bool, true, false, Option, none, some, List, [], ◌∷◌,
  ◌++◌, ◌==◌, ◌&&◌, ◌||◌, ltb, leb, length, if◌then◌else◌,
}
use Prim.Native.Nat.{bit_and, bit_or}
use emufxtool.Base.Text.{Text, codes, text_key}
use emufxtool.Base.Table.{lookup, insert}
use emufxtool.Words.{complement}
use emufxtool.Symbols.Macros.{Macro}
use emufxtool.Expression.Trees.{eval}
use emufxtool.Scanner.Tables as ScannerTables
use emufxtool.Scanner.Tables.{Token, symbol, token_eof, get_symbol}
use emufxtool.Scanner.Stream.{ParserStream, string_stream, begin_parsing, end_parsing}
use emufxtool.Scanner.Words.{Scanner}
use emufxtool.Scanner.Words as ScannerWords
use emufxtool.Compiler.Objects.{Operand, Element, Store, resolve}
use emufxtool.Parser.State.{Library, Error, Parser, ok, err, stuck, Method, ◌>>=◌, gets, modify}

-- `IsIdentifier`; `toupper` of the C locale changes the letters a to z.
abbrev pub to_upper : ℕ → ℕ
to_upper c = if leb 0x61 c && leb c 0x7a then c - 0x20 else c

abbrev is_letter : ℕ → Bool
is_letter c = leb 0x41 c && leb c 0x5a

abbrev all_inner : Text → Bool
all_inner [] = true
all_inner (c ∷ cs) =
    let up = to_upper c in
    (is_letter up || (leb 0x30 up && leb up 0x39) || up == 0x5f || up == 0x2e) && all_inner cs

-- The characters up to a closing 0.
abbrev before_zero : Text → Text
before_zero [] = []
before_zero (c ∷ cs) = if c == 0 then [] else c ∷ before_zero cs

abbrev begins_name : Text → Bool
begins_name [] = false
begins_name (c ∷ cs) = (is_letter (to_upper c) || to_upper c == 0x5f) && all_inner cs

unfoldable pub is_identifier : Text → Bool
is_identifier word = begins_name (before_zero word)

-- Decimal digits, in front of a text.
abbrev decimal : ℕ → ℕ → Text → Text
decimal zero n t = t
decimal (suc rounds) n t =
    let rest = decimal rounds (n / 10) ((0x30 + n % 10) ∷ t) in
    if ltb n 10 then (0x30 + n % 10) ∷ t else rest

-- `inttos`, of an `int` by its 32 bits.
unfoldable pub inttos : ℕ → Text
inttos n = if ltb n (2 ^ 31) then decimal 10 n [] else 0x2d ∷ decimal 10 (2 ^ 32 - n) []

-- `numToString`, of an `int` too.
unfoldable pub num_to_string : ℕ → Text
num_to_string n = if ltb n (2 ^ 31) then decimal 10 n [] else 0x2d ∷ decimal 10 (2 ^ 32 - n) []

-- `GetLineNumber`
unfoldable pub line_of : Parser → ℕ
line_of p = elim p.scanner.reader.p_stream [ none ↦ 0 | some s ↦ s.line_number ]

abbrev waiting_names : List (Option ParserStream) → Text
waiting_names [] = []
waiting_names (none ∷ streams) = waiting_names streams
waiting_names (some s ∷ streams) =
    (s.name ++ (codes " at line " ++ (inttos s.line_number ++ codes ":"))) ++ waiting_names streams

-- `GetStreamName`
unfoldable pub stream_name_of : Parser → Text
unfolding inttos
stream_name_of p =
    waiting_names p.streams ++ elim p.scanner.reader.p_stream [ none ↦ [] | some s ↦ s.name ]

-- `THROW_ERR_S`, `THROW_ERR` and `THROW_ERR_T`
unfoldable pub throw_err_s {ℓ} : {A : Type ℓ} → Text → Text → Method A
unfolding line_of stream_name_of
throw_err_s sym msg p =
    err (record { symbol = sym; message = msg; streams = stream_name_of p; line = line_of p }) p

abbrev pub get_last_word : Method Text
get_last_word = gets (λ p. p.scanner.last_word)

unfoldable pub throw_err {ℓ} : {A : Type ℓ} → Text → Method A
unfolding throw_err_s
throw_err msg p = throw_err_s p.scanner.last_word msg p

unfoldable pub throw_err_t {ℓ} : {A : Type ℓ} → Token → Method A
unfolding throw_err
throw_err_t t p =
    throw_err (codes "found where '" ++ (get_symbol p.scanner.rules t ++ codes "' expected")) p

unfoldable pub push_back_word : Method (Unit {0})
push_back_word = modify (λ p. record p { scanner = ScannerWords.push_back_word p.scanner })

-- `BeginParsing` of a string stream, and `EndParsing`
unfoldable pub begin_text : Text → Text → Method (Unit {0})
unfolding throw_err_s
begin_text text name p =
    elim (begin_parsing (string_stream text name)
      (record { reader = p.scanner.reader; streams = p.streams })) [
        | none ↦ throw_err_s (codes "<PARSER>") (codes " too many recursion levels (>64)") p
        | some entered ↦ ok tt (record p {
          scanner = record p.scanner { reader = entered.1.reader };
          streams = entered.1.streams;
        })
      ]

unfoldable pub end_stream : Method Bool
end_stream p =
    let (left, k) = end_parsing (record { reader = p.scanner.reader; streams = p.streams }) in
    ok left (record p { scanner = record p.scanner { reader = k.reader }; streams = k.streams })

-- `Empty`
abbrev pub has_no_stream : Parser → Bool
has_no_stream p = elim p.scanner.reader.p_stream [ none ↦ true | some _ ↦ false ]

-- `GetUnparsedWord`
unfoldable pub get_unparsed_word : ℕ → Method Text
get_unparsed_word fuel p = elim (ScannerWords.get_next_word fuel p.scanner) [
  | none ↦ stuck
  | some (word, sc) ↦ ok word (record p { scanner = sc })
]

-- `SetOptions`, `ClearOptions` and `GetOptions`
unfoldable pub set_options : ℕ → Method (Unit {0})
set_options opts = modify (λ p. record p { options = bit_or p.options opts })

unfoldable pub clear_options : ℕ → Method (Unit {0})
clear_options opts = modify (λ p. record p { options = bit_and p.options (complement opts) })

unfoldable pub get_options : ℕ → Method ℕ
get_options mask = gets (λ p. bit_and p.options mask)

-- What a name stands for: a macro, or a pointer to an element.
pub data Meaning : Type 0 where
  a_macro : Macro → Meaning
  an_element : ℕ → Meaning

-- `ResolveSymbol`
unfoldable pub resolve_symbol : Text → Parser → Option Meaning
resolve_symbol name p = elim (lookup name p.macros) [
  | some m ↦ some (a_macro m)
  | none ↦ elim (lookup name p.program.symtab) [
    | some pointer ↦ some (an_element pointer)
    | none ↦ none
  ]
]

-- `delete` of a pointer.
abbrev pub delete : Option ℕ → Store → Store
delete none elements = elements
delete (some pointer) elements = set elements pointer none

-- `AddSymbol`, of a new element: its pointer is the next free place. The element that had the name
-- is deleted, and stays in `SYMLIST`.
unfoldable pub add_symbol : Text → Element → Method ℕ
add_symbol name e p =
    let pointer = length p.program.elements in
    ok pointer (record p {
      program = record p.program {
        elements = delete (lookup name p.program.symtab) p.program.elements ++ some e ∷ [];
        symtab = insert name pointer p.program.symtab;
        symlist = p.program.symlist ++ pointer ∷ [];
      };
    })

-- `AddMacro`
unfoldable pub add_macro : Text → Macro → Method (Unit {0})
add_macro name m = modify (λ p. record p { macros = insert name m p.macros })

-- `emuException::message`; the symbol stands between quotes.
unfoldable pub message_of : Error → Text
message_of e = e.streams ++ (codes "::" ++ (0x27 ∷ (e.symbol ++ (0x27 ∷ 0x20 ∷ e.message))))

-- What `Error` adds to the list of errors.
unfoldable pub error_text : Error → Parser → Text
unfolding message_of stream_name_of line_of num_to_string
error_text e p =
    let line = if e.line == 0 then line_of p else e.line in
    stream_name_of p ++ (codes ":" ++ (num_to_string line ++ (codes ":" ++ message_of e)))

-- `Error`
unfoldable pub report : Error → Method (Unit {0})
unfolding error_text
report e = modify (λ p. record p { errors = p.errors ++ error_text e p ∷ [] })

-- `Eval` of an expression that the parser has just read.
unfoldable pub value_of : Operand → Method ℕ
value_of o p = elim (resolve p.program o) [
  | none ↦ stuck
  | some e ↦ elim (eval 0 e) [ none ↦ stuck | some v ↦ ok v p ]
]

module _ (lib : Library) where
  -- `Token`
  unfoldable pub token_of : Text → Parser → Token
  unfolding is_identifier
  token_of word p =
      ScannerTables.token lib.sscanf_li lib.sscanf_lf is_identifier p.scanner.rules word

  -- `GetUnparsedToken` and `GetLastToken`
  unfoldable pub get_unparsed_token : ℕ → Method Token
  unfolding get_unparsed_word token_of
  get_unparsed_token fuel = do word ← get_unparsed_word fuel; gets (token_of word)

  unfoldable pub get_last_token : Method Token
  unfolding token_of
  get_last_token p = ok (token_of p.scanner.last_word p) p
