-- ===== src/Scanner/Stream.antt =====
-- Character streams, and the stack of streams that a scanner reads from. Of the classes of
-- streams this is `StringParserStream`.
use emufxtool.Base.{
  ℕ, ◌+◌, Bool, true, false, Option, none, some, List, [], ◌∷◌, ◌++◌, ◌==◌, ltb, length, get_or,
  if◌then◌else◌,
}
use emufxtool.Base.Text.{Text, text_eq}

pub record ParserStream : Type 0 where
  pub read_new_char : Bool
  pub last_char : ℕ
  pub line_number : ℕ
  pub new_line_char : ℕ
  pub char_ptr : ℕ
  pub data_text : Text
  pub name : Text

abbrev pub string_stream : Text → Text → ParserStream
string_stream text stream_name = record {
  read_new_char = true;
  last_char = 0;
  line_number = 1;
  new_line_char = 0x0a;
  char_ptr = 0;
  data_text = text;
  name = stream_name;
}

unfoldable pub eof : ParserStream → Bool
eof s = s.char_ptr == length s.data_text

-- `ParserStream::GetChar`, with `ReadChar` and `NewLine`
unfoldable pub get_char : ParserStream → ℕ × ParserStream
unfolding eof
get_char s =
    let c = get_or s.data_text s.char_ptr 0 in
    let line = if c == s.new_line_char then s.line_number + 1 else s.line_number in
    if s.read_new_char
    then if eof s
      then (0, s)
      else (c, record s { char_ptr = s.char_ptr + 1; last_char = c; line_number = line })
    else (s.last_char, record s { read_new_char = true })

-- `Restart`, with `Rewind`
unfoldable pub restart : ParserStream → ParserStream
restart s = record s { last_char = 0; read_new_char = true; char_ptr = 0 }

unfoldable pub push_back_char : ParserStream → ParserStream
push_back_char s = record s { read_new_char = false }

-- What the scanner reads from: `PStream`, and its own `LastChar`.
pub record Reader : Type 0 where
  pub p_stream : Option ParserStream
  pub last_char : ℕ

-- `Scanner::GetNextChar`
unfoldable pub get_next_char : Reader → ℕ × Reader
get_next_char r = elim r.p_stream [
  | none ↦ (r.last_char, r)
  | some s ↦ let (c, s') = get_char s in (c, record { p_stream = some s'; last_char = c })
]

-- `Scanner::PushBackChar`
unfoldable pub push_back : Reader → Reader
push_back r = elim r.p_stream [
  | none ↦ r
  | some s ↦ record r { p_stream = some (push_back_char s) }
]

-- `Scanner::Eof`
unfoldable pub at_eof : Reader → Bool
unfolding eof
at_eof r = elim r.p_stream [ none ↦ true | some s ↦ eof s ]

-- The stream that is read, and those that wait for it to end.
pub record Stack : Type 0 where
  pub reader : Reader
  pub streams : List (Option ParserStream)

-- `BeginParsing`; `none` is its exception. The result is the number of streams that wait.
unfoldable pub begin_parsing : ParserStream → Stack → Option (ℕ × Stack)
begin_parsing s k =
    if ltb 64 (length k.streams)
    then none
    else let waiting = k.streams ++ k.reader.p_stream ∷ [] in
      some (
        length waiting,
        record { reader = record k.reader { p_stream = some s }; streams = waiting },
      )

-- The last element, and those before it.
abbrev pub pop_back {ℓ} : {A : Type ℓ} → A → List A → A × List A
pop_back x [] = (x, [])
pop_back x (y ∷ ys) = let (last, front) = pop_back y ys in (last, x ∷ front)

-- `streams.back()` and `streams.pop_back()`, where there are streams.
abbrev pub pop_stream :
    List (Option ParserStream) → Option ParserStream × List (Option ParserStream)
pop_stream [] = (none, [])
pop_stream (s ∷ streams) = pop_back s streams

-- `EndParsing`: is there a stream left?
unfoldable pub end_parsing : Stack → Bool × Stack
end_parsing k =
    let (next, waiting) = pop_stream k.streams in
    (
      elim next [ none ↦ false | some _ ↦ true ],
      record { reader = record k.reader { p_stream = next }; streams = waiting },
    )

-- `FindStream`: among the streams that wait.
unfoldable pub find_stream : Text → List (Option ParserStream) → Option ParserStream
find_stream name [] = none
find_stream name (none ∷ streams) = find_stream name streams
find_stream name (some s ∷ streams) =
    let rest = find_stream name streams in if text_eq name s.name then some s else rest
