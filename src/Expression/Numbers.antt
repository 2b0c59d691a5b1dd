-- ===== src/Expression/Numbers.antt =====
-- `emuNumber`: numbers as text.
use emufxtool.Base.{
  ℕ, ◌+◌, ◌-◌, ◌*◌, Bool, true, false, Option, none, some, [], ◌∷◌, ◌==◌, ◌&&◌, ◌||◌, not, leb, ltb,
  drop, if◌then◌else◌,
}
use emufxtool.Base.Text.{Text}
use emufxtool.Words.{u32, max_u32}
use emufxtool.Scanner.Tables.{elem}

-- `none` is -1.
unfoldable pub digit : ℕ → Option ℕ
digit c =
    if leb 0x30 c && leb c 0x39
    then some (c - 0x30)
    else if leb 0x61 c && leb c 0x7a
    then some (c - 0x61 + 10)
    else if leb 0x41 c && leb c 0x5a
    then some (c - 0x41 + 10)
    else none

unfoldable pub is_digit : ℕ → ℕ → Bool
unfolding digit
is_digit base c = elim (digit c) [ none ↦ false | some v ↦ ltb v base ]

unfoldable pub isnum : Text → ℕ → Bool
isnum [] base = true
isnum (c ∷ cs) base = is_digit base c && isnum cs base

-- A digit as an `unsigned long`.
unfoldable pub digit_word : ℕ → ℕ
unfolding digit
digit_word c = elim (digit c) [ none ↦ max_u32 | some v ↦ v ]

unfoldable pub char2base_from : ℕ → Text → ℕ → ℕ
char2base_from acc [] base = acc
char2base_from acc (c ∷ cs) base = char2base_from (u32 (digit_word c + acc * base)) cs base

unfoldable pub char2base : Text → ℕ → ℕ
char2base c base = char2base_from 0 c base

-- Does a text begin with `0x`, and is what follows hexadecimal?
unfoldable pub is_hex_text : Text → Bool
is_hex_text (a ∷ b ∷ cs) = a == 0x30 && ((b == 0x78 || b == 0x58) && isnum cs 16)
is_hex_text cs = false

-- The type of a number without one: `#`, `x`, or 0.
unfoldable pub guess_type : Text → ℕ
guess_type c =
    if not (elem 0x2e c) || (elem 0x45 c || elem 0x65 c)
    then 0x23
    else if is_hex_text c
    then 0x78
    else 0

abbrev pub in_base : Text → ℕ → ℕ → ℕ × ℕ
in_base c base ctype = if isnum c base then (char2base c base, ctype) else (max_u32, 0)

-- What `sscanf` has found.
abbrev pub scanned : Option ℕ → ℕ → ℕ × ℕ
scanned none ctype = (max_u32, 0)
scanned (some v) ctype = (v, ctype)

-- `from_char`: the value, and the type that is stored through `ntype`. What `sscanf` makes of a
-- decimal fraction and of a time, scaled to a word, are parameters; `none` where it finds none.
unfoldable pub from_char : (scan_fraction scan_time : Text → Option ℕ) → Text → ℕ → ℕ × ℕ
from_char scan_fraction scan_time text ntype =
    let ctype = if ntype == 0 then guess_type text else ntype in
    let c = if ntype == 0 && ctype == 0x78 then drop 2 text else text in
    if ctype == 0x23
    then scanned (scan_fraction c) ctype
    else if ctype == 0x26
    then scanned (scan_time c) ctype
    else if ctype == 0x78 || ctype == 0x24
    then in_base c 16 ctype
    else if ctype == 0x40
    then in_base c 8 ctype
    else if ctype == 0x25
    then in_base c 2 ctype
    else in_base c 10 0x64
