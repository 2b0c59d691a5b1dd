-- ===== src/Scanner/Unescape.antt =====
-- `literal` undoes `escape`, and stays inside its buffer.
use mathlib.Core.Option.{map as option_map}
use mathlib.Core.List.{append_assoc}
use emufxtool.Base.{
  ℕ, zero, suc, ◌/◌, ◌%◌, ◌≤◌, ◌<◌, ◌≡◌, ◌≢◌, refl, false, Option, none, some, [], ◌∷◌, ◌++◌,
  length, is_empty, arith, Option-cases,
}
use emufxtool.Base.Text.{Text, c_string, c_string_all, IsCString-append, IsCString}
use emufxtool.Words.{◌>>>◌}
use emufxtool.Words.Bits.{or_split, or-zero, zero-or}
use emufxtool.Scanner.Tables.{Rules}
use emufxtool.Scanner.Literals.{
  hex_digit, escape_char, escape_all, strip, escape, hexcnv, simple_escape, hex_pair, literal_loop,
  literal,
}

-- A character that is neither 0, nor a quote, nor a backslash.
abbrev pub IsQuotable : ℕ → Type 0
IsQuotable c = (c ≢ 0) × (c ≢ 0x22) × (c ≢ 0x5c) × (c < 256)

abbrev pub AreQuotable : Text → Type 0
AreQuotable [] = Unit
AreQuotable (c ∷ cs) = IsQuotable c × AreQuotable cs

hexcnv-hex_digit : (n : ℕ) → n < 16 → hexcnv (hex_digit n) ≡ some n
unfolding hexcnv
hexcnv-hex_digit n h = ground arith

-- The two digits of a byte are read back.
hex_pair-escape :
    (c : ℕ) (s : Text) → c < 256 → hex_pair (hex_digit (c >>> 4) ∷ hex_digit (c % 16) ∷ s) ≡ some c
unfolding hex_pair
hex_pair-escape c s h = ground (
  arith,
  hexcnv-hex_digit (c / 16),
  hexcnv-hex_digit (c % 16),
  or_split 4 (c / 16) 0 0 (c % 16),
  or-zero (c / 16),
  zero-or (c % 16),
)

-- An escaped character in front of a text that is not empty.
literal_loop-escape_char :
    (c d : ℕ) (s : Text)
    → IsQuotable c
    → literal_loop 0 (escape_char c ++ d ∷ s) ≡ option_map (λ t. c ∷ t) (literal_loop 0 (d ∷ s))
unfolding literal_loop escape_char simple_escape
literal_loop-escape_char c d s (ne, quote, slash, small) =
    ground (arith, hex_pair-escape c (d ∷ s) small)

is_empty-snoc : (s : Text) (c : ℕ) → is_empty (s ++ c ∷ []) ≡ false
is_empty-snoc [] c = refl
is_empty-snoc (d ∷ s) c = refl

literal_loop-escape :
    (c : ℕ) (t : Text)
    → IsQuotable c
    → is_empty t ≡ false
    → literal_loop 0 (escape_char c ++ t) ≡ option_map (λ u. c ∷ u) (literal_loop 0 t)
literal_loop-escape c [] h full = cc
literal_loop-escape c (d ∷ s) h full = literal_loop-escape_char c d s h

literal_loop-escape_all :
    (s : Text) → AreQuotable s → literal_loop 0 (escape_all s ++ 0x22 ∷ []) ≡ some s
unfolding escape_all
literal_loop-escape_all [] h = unfold literal_loop in refl
literal_loop-escape_all (c ∷ s) (h, hs) = rw (
  append_assoc (escape_char c) (escape_all s) (0x22 ∷ []),
  literal_loop-escape c (escape_all s ++ 0x22 ∷ []) h (is_empty-snoc (escape_all s) 0x22),
  literal_loop-escape_all s hs,
)

escape_char-IsCString : (c : ℕ) → IsQuotable c → IsCString (escape_char c)
unfolding escape_char
escape_char-IsCString c h = ground (arith, h)

escape_all-IsCString : (s : Text) → AreQuotable s → IsCString (escape_all s)
unfolding escape_all
escape_all-IsCString [] h = tt
escape_all-IsCString (c ∷ s) (h, hs) =
    IsCString-append (escape_char c) (escape_all s) (escape_char-IsCString c h)
      (escape_all-IsCString s hs)

AreQuotable-IsCString : (s : Text) → AreQuotable s → IsCString s
AreQuotable-IsCString [] h = tt
AreQuotable-IsCString (c ∷ s) (h, hs) = (h.0, AreQuotable-IsCString s hs)

-- A text without a quote is not delimited.
strip-AreQuotable :
    (r : Rules) (s : Text) → r.delimiter_begin ≡ 0x22 → AreQuotable s → strip r s ≡ s
unfolding strip
strip-AreQuotable r [] quotes h = ground (arith, quotes)
strip-AreQuotable r (c ∷ s) quotes (h, hs) = ground (arith, quotes, h)

literal_quoted :
    (s : Text)
    → c_string (0x22 ∷ s) ≡ 0x22 ∷ s
    → literal (0x22 ∷ s) ≡ option_map c_string (literal_loop 0 s)
unfolding literal
literal_quoted s h = rw (h, literal)

-- Between quotes, a text that `escape` prints is read as it was, where the scanner's strings begin
-- with a quote and the text has no 0, no quote and no backslash.
pub literal-escape :
    (r : Rules) (s : Text)
    → r.delimiter_begin ≡ 0x22
    → AreQuotable s
    → literal (0x22 ∷ (escape r s ++ 0x22 ∷ [])) ≡ some s
literal-escape r s quotes h =
    let plain = AreQuotable-IsCString s h in
    let printed : escape r s ≡ escape_all s =
      unfold escape in rw (strip-AreQuotable r s quotes h, c_string_all s plain) in
    let quoted = 0x22 ∷ (escape_all s ++ 0x22 ∷ []) in
    let whole : c_string quoted ≡ quoted =
      c_string_all quoted
        (ground arith, IsCString-append _ _ (escape_all-IsCString s h) (ground arith, tt)) in
    rw printed (
      rw (
        literal_quoted (escape_all s ++ 0x22 ∷ []) whole,
        literal_loop-escape_all s h,
        c_string_all s plain,
      ))

-- How many characters a loop stores.
abbrev pub stored_size : Option Text → ℕ
stored_size none = 0
stored_size (some v) = length v

stored_size-map :
    (c : ℕ) (o : Option Text) → stored_size (option_map (λ t. c ∷ t) o) ≤ suc (stored_size o)
stored_size-map c none = omega arith
stored_size-map c (some v) = omega arith

stored_size-literal_loop : (skip : ℕ) (s : Text) → stored_size (literal_loop skip s) ≤ length s
unfolding literal_loop
stored_size-literal_loop skip [] = omega arith
stored_size-literal_loop (suc skip) (c ∷ s) = omega (arith, stored_size-literal_loop skip s)
stored_size-literal_loop zero (c ∷ []) = ground arith
stored_size-literal_loop zero (c ∷ d ∷ s) = ground (
  arith,
  stored_size-literal_loop 0 (d ∷ s),
  stored_size-literal_loop 1 (d ∷ s),
  stored_size-literal_loop 3 (d ∷ s),
  stored_size-map c (literal_loop 0 (d ∷ s)),
  stored_size-map (simple_escape d) (literal_loop 1 (d ∷ s)),
  stored_size-map 0x78 (literal_loop 1 (d ∷ s)),
  Option-cases (hex_pair s),
  λ (v : ℕ). stored_size-map v (literal_loop 3 (d ∷ s)),
)

-- Where the loop of `literal` ends at the end of the text, it has stored no more characters than
-- the text has. Nothing is stated of a text whose last backslash has no character behind it.
pub literal_loop-size : (skip : ℕ) (s v : Text) → literal_loop skip s ≡ some v → length v ≤ length s
literal_loop-size skip s v done = rw done at (stored_size-literal_loop skip s)
