-- ===== src/Expression/NumberLaws.antt =====
-- Numbers that are printed are read back, and a number without a type is never read as
-- hexadecimal.
use native.Mathlib.Nat.{div-le_self, div-lt_self, mod-lt, mod-add-div'}
use emufxtool.Base.{
  ℕ, zero, suc, ◌+◌, ◌-◌, ◌*◌, ◌/◌, ◌%◌, ◌^◌, ◌≤◌, ◌<◌, ◌≡◌, refl, ◌∙◌, Bool, true, false, Option,
  some, [], ◌∷◌, ◌++◌, ◌&&◌, ◌||◌, not, ltb, arith, if◌then◌else◌, Bool-cases, inl, inr,
}
use emufxtool.Base.Text.{Text}
use emufxtool.Words.{u32}
use emufxtool.Scanner.Tables.{elem}
use emufxtool.Expression.Numbers.{
  digit, is_digit, isnum, digit_word, char2base_from, char2base, is_hex_text, guess_type, in_base,
  scanned, from_char,
}

-- A digit as text.
abbrev pub digit_char : ℕ → ℕ
digit_char v = if ltb v 10 then 0x30 + v else 0x61 + (v - 10)

-- A number as text, its last digit last; the fuel is more than the number.
abbrev pub print_number : ℕ → ℕ → ℕ → Text
print_number base zero n = []
print_number base (suc fuel) n =
    let front = print_number base fuel (n / base) in
    if ltb n base then digit_char n ∷ [] else front ++ digit_char (n % base) ∷ []

digit-digit_char : (v : ℕ) → v < 36 → digit (digit_char v) ≡ some v
unfolding digit
digit-digit_char v h = ground arith

char2base_from-snoc :
    (acc : ℕ) (cs : Text) (c base : ℕ)
    → char2base_from acc (cs ++ c ∷ []) base
      ≡ u32 (digit_word c + char2base_from acc cs base * base)
unfolding char2base_from
char2base_from-snoc acc [] c base = refl
char2base_from-snoc acc (d ∷ cs) c base =
    char2base_from-snoc (u32 (digit_word d + acc * base)) cs c base

isnum-snoc :
    (cs : Text) (c base : ℕ) → isnum (cs ++ c ∷ []) base ≡ (isnum cs base && is_digit base c)
unfolding isnum
isnum-snoc [] c base = ground arith
isnum-snoc (d ∷ cs) c base = ground (arith, isnum-snoc cs c base)

quotient_small : (n base fuel : ℕ) → 2 ≤ base → n < suc fuel → base ≤ n → n / base < fuel
quotient_small n base fuel two h big = omega (
  arith,
  two,
  h,
  big,
  div-lt_self {n = n} {k = base} (omega (arith, two, big)) (omega (arith, two)),
)

is_digit-digit_char : (v base : ℕ) → v < base → base ≤ 36 → is_digit base (digit_char v) ≡ true
unfolding is_digit
is_digit-digit_char v base h top =
    rw (is_digit, digit-digit_char v (omega (arith, h, top))) (ground (arith, h))

digit_word-digit_char : (v : ℕ) → v < 36 → digit_word (digit_char v) ≡ v
unfolding digit_word
digit_word-digit_char v h = rw (digit_word, digit-digit_char v h)

-- One more digit behind a number.
next_digit :
    (front : Text) (q d base : ℕ)
    → (isnum front base ≡ true) × (char2base front base ≡ q)
    → d < base
    → base ≤ 36
    → d + q * base < 2 ^ 32
    → (isnum (front ++ digit_char d ∷ []) base ≡ true)
      × (char2base (front ++ digit_char d ∷ []) base ≡ d + q * base)
unfolding char2base
next_digit front q d base (number, value) h top word = (
  rw (isnum-snoc front (digit_char d) base, number, is_digit-digit_char d base h top),
  rw
      (
        char2base_from-snoc 0 front (digit_char d) base,
        value,
        digit_word-digit_char d (omega (arith, h, top)),
      )
      (omega (arith, word)),
)

-- In a base from 2 to 36, a word that is printed is a number of that base, and `char2base` reads
-- it back.
pub char2base-print_number :
    (base fuel n : ℕ)
    → 2 ≤ base
    → base ≤ 36
    → n < 2 ^ 32
    → n < fuel
    → (isnum (print_number base fuel n) base ≡ true)
      × (char2base (print_number base fuel n) base ≡ n)
char2base-print_number base zero n two top word h = absurd (omega (arith, h))
char2base-print_number base (suc fuel) n two top word h = elim (Bool-cases (ltb n base)) [
  | inl small ↦
      let below : n < base = ground (arith, small) in
      let word_of = digit_word-digit_char n (omega (arith, below, top)) in
      rw small (
        unfold isnum in rw (is_digit-digit_char n base below top),
        unfold char2base char2base_from in rw word_of (omega (arith, word)),
      )
  | inr large ↦
      let above : base ≤ n = ground (arith, large) in
      let rest = mod-lt n {m = base} (omega (arith, two)) in
      let less = div-le_self n base in
      let ih =
        char2base-print_number base fuel (n / base) two top (omega (arith, word, less))
          (quotient_small n base fuel two h above) in
      let whole = mod-add-div' n base in
      let (number, value) =
        next_digit (print_number base fuel (n / base)) (n / base) (n % base) base ih rest top
          (omega (arith, word, whole)) in
      rw large (number, value ∙ whole)
]

isnum-no_point : (cs : Text) → isnum cs 16 ≡ true → elem 0x2e cs ≡ false
unfolding isnum is_digit digit
isnum-no_point [] h = refl
isnum-no_point (c ∷ cs) h = ground (arith, h, isnum-no_point cs)

is_hex_text-no_point : (c : Text) → is_hex_text c ≡ true → elem 0x2e c ≡ false
unfolding is_hex_text
is_hex_text-no_point [] h = refl
is_hex_text-no_point (a ∷ []) h = cc
is_hex_text-no_point (a ∷ b ∷ cs) h = ground (arith, h, isnum-no_point cs)

-- A text that is to be read as a fraction.
abbrev pub reads_as_fraction : Text → Bool
reads_as_fraction c = not (elem 0x2e c) || (elem 0x45 c || elem 0x65 c)

guess_type_lem : (c : Text) → guess_type c ≡ (if reads_as_fraction c then 0x23 else 0)
unfolding guess_type
guess_type_lem c = ground (arith, is_hex_text-no_point c)

pub from_char-untyped :
    (scan_fraction scan_time : Text → Option ℕ) (text : Text)
    → from_char scan_fraction scan_time text 0
      ≡ (if reads_as_fraction text then scanned (scan_fraction text) 0x23 else in_base text 10 0x64)
unfolding from_char
from_char-untyped scan_fraction scan_time text = elim (Bool-cases (reads_as_fraction text)) [
  | inl fraction ↦ rw (guess_type_lem text, fraction)
  | inr integer ↦ rw (guess_type_lem text, integer)
]
