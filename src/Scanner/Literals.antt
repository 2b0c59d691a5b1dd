-- ===== src/Scanner/Literals.antt =====
-- Strings of the source language: `escape` prints one, `literal` reads one.
use Prim.Native.Nat.{bit_or}
use mathlib.Core.Option.{map as option_map}
use emufxtool.Base.{
  ℕ, zero, suc, ◌+◌, ◌-◌, ◌%◌, Option, none, some, [], ◌∷◌, ◌++◌, ◌==◌, ◌&&◌, leb, ltb, length,
  get_or, take, drop, if◌then◌else◌,
}
use emufxtool.Base.Text.{Text, c_string}
use emufxtool.Words.{u8, ◌<<<◌, ◌>>>◌}
use emufxtool.Scanner.Tables.{Rules}

-- A digit as `%02x` prints it.
abbrev pub hex_digit : ℕ → ℕ
hex_digit n = if ltb n 10 then 0x30 + n else 0x61 + (n - 10)

-- One character, escaped: a `char` is signed, so that those from 0x80 on are below 31.
unfoldable pub escape_char : ℕ → Text
escape_char c =
    if c == 0x0a
    then 0x5c ∷ 0x6e ∷ []
    else if c == 0x09
    then 0x5c ∷ 0x74 ∷ []
    else if ltb 31 c && ltb c 0x80
    then c ∷ []
    else 0x5c ∷ 0x78 ∷ hex_digit (c >>> 4) ∷ hex_digit (c % 16) ∷ []

unfoldable pub escape_all : Text → Text
unfolding escape_char
escape_all [] = []
escape_all (c ∷ cs) = escape_char c ++ escape_all cs

-- The text without its delimiters, where it has both.
unfoldable pub strip : Rules → Text → Text
strip r ss =
    if get_or ss 0 0 == r.delimiter_begin && get_or ss (length ss - 1) 0 == r.delimiter_end
    then take (length ss - 2) (drop 1 ss)
    else ss

unfoldable pub escape : Rules → Text → Text
escape r ss = escape_all (c_string (strip r ss))

-- `hexcnv`, with `toupper`; `none` is -1.
unfoldable pub hexcnv : ℕ → Option ℕ
hexcnv c =
    let up = if leb 0x61 c && leb c 0x7a then c - 0x20 else c in
    if leb 0x30 up && leb up 0x39
    then some (up - 0x30)
    else if leb 0x41 up && leb up 0x46
    then some (up - 0x41 + 10)
    else none

-- What the letter behind a backslash stands for.
unfoldable pub simple_escape : ℕ → ℕ
simple_escape c =
    if c == 0x74
    then 0x09
    else if c == 0x6e
    then 0x0a
    else if c == 0x72
    then 0x0d
    else if c == 0x71
    then 0x22
    else if c == 0x30
    then 0
    else c

-- Two hexadecimal digits at the front of a text.
unfoldable pub hex_pair : Text → Option ℕ
unfolding hexcnv
hex_pair [] = none
hex_pair (a ∷ []) = none
hex_pair (a ∷ b ∷ _) = elim (hexcnv a) [
  | none ↦ none
  | some h1 ↦ elim (hexcnv b) [ none ↦ none | some h2 ↦ some (u8 (bit_or (h1 <<< 4) h2)) ]
]

-- The loop of `literal`, behind the first quote, on a text that ends at a 0 of its own. `skip`
-- counts the characters that an escape has used up already. `none`: a backslash is the last
-- character, so that the source reads behind the end of the text.
unfoldable pub literal_loop : ℕ → Text → Option Text
literal_loop skip [] = some []
literal_loop (suc skip) (c ∷ s) = literal_loop skip s
literal_loop zero (c ∷ []) =
    if c == 0x22 then some [] else if c == 0x5c then none else some (c ∷ [])
literal_loop zero (c ∷ d ∷ s) =
    let plain = literal_loop 0 (d ∷ s) in
    let one = literal_loop 1 (d ∷ s) in
    let three = literal_loop 3 (d ∷ s) in
    if c == 0x22
    then some []
    else if c == 0x5c
    then (if d == 0x78
        then elim (hex_pair s) [
          | some v ↦ option_map (λ t. v ∷ t) three
          | none ↦ option_map (λ t. 0x78 ∷ t) one
        ]
        else option_map (λ t. simple_escape d ∷ t) one)
    else option_map (λ t. c ∷ t) plain

-- A text that does not begin with a quote is its own value. The value ends at its first 0.
unfoldable pub literal : Text → Option Text
literal s = elim (c_string s) [
  | [] ↦ some s
  | c ∷ cs ↦ if c == 0x22 then option_map c_string (literal_loop 0 cs) else some s
]
