-- ===== src/Scanner/NextWord.antt =====
-- `GetNextWord` against the recursive description of words.
use mathlib.Core.List.{append_assoc}
use emufxtool.Base.{
  ℕ, zero, suc, ◌<◌, ◌≡◌, refl, ap, ◌∙◌, Bool, true, false, Option, some, [], ◌∷◌, ◌++◌, not, ◌==◌,
  length, arith, Bool-cases, inl, inr,
}
use emufxtool.Base.Text.{Text, IsCString}
use emufxtool.Words.{is_set}
use emufxtool.Scanner.Tables.{Rules, begins_separator, is_blank}
use emufxtool.Scanner.Stream.{Reader, push_back}
use emufxtool.Scanner.Words.{Scanner, skip_blanks, word_from, get_next_word}
use emufxtool.Scanner.Reading.{Ahead, get_next_char-cons, get_next_char-end}
use emufxtool.Scanner.Splitting.{
  Cuts, span, is_plain, close, put, pair_up, front_word, split_word, word_from-Cuts,
}

-- What is ahead after the blanks: nothing, or a character that can be pushed back.
abbrev Skips : Option (ℕ × Reader) → Text → Type 0
Skips result [] = (r : Reader) × (result ≡ some (0, r)) × Ahead r []
Skips result (c ∷ t) =
    (r : Reader) × (result ≡ some (c, r)) × Ahead r t × Ahead (push_back r) (c ∷ t)

skip_blanks-Skips :
    (rules : Rules) (fuel : ℕ) (t : Text) (r : Reader)
    → Ahead r t
    → IsCString t
    → length t < fuel
    → Skips (skip_blanks rules fuel r) (span (is_blank rules) t).1
unfolding skip_blanks
skip_blanks-Skips rules zero t r ahead text h = absurd (omega (arith, h))
skip_blanks-Skips rules (suc fuel) [] r ahead text h =
    let (r', result, after) = get_next_char-end r ahead in
    (r', rw (result, skip_blanks, result), after)
skip_blanks-Skips rules (suc fuel) (c ∷ t) r ahead (ne, text) h =
    let (r', read) = get_next_char-cons r c t ahead in
    let set : is_set c ≡ true = ground (arith, ne) in
    elim (Bool-cases (is_blank rules c)) [
      | inl blank ↦
          let step : skip_blanks rules (suc fuel) r ≡ skip_blanks rules fuel r' =
            rw (read.result, skip_blanks, set, blank, read.result) in
          rw (step, blank) (skip_blanks-Skips rules fuel t r' read.after text (omega (arith, h)))
      | inr other ↦
          rw other
            (r', rw (read.result, skip_blanks, set, other, read.result), read.after, read.pushed)
    ]

span-IsCString : (p : ℕ → Bool) (t : Text) → IsCString t → IsCString (span p t).1
span-IsCString p [] h = tt
span-IsCString p (c ∷ t) (ne, h) = elim (Bool-cases (p c)) [
  | inl e ↦ rw e (span-IsCString p t h)
  | inr e ↦ rw e (ne, h)
]

span-length : (p : ℕ → Bool) (t : Text) → length (span p t).1 < suc (length t)
span-length p [] = omega arith
span-length p (c ∷ t) = ground (arith, span-length p t)

span-append : (p : ℕ → Bool) (t : Text) → (span p t).0 ++ (span p t).1 ≡ t
span-append p [] = refl
span-append p (c ∷ t) = ground (arith, span-append p t)

close-append : (p : Text × Text) → (close p).0 ++ (close p).1 ≡ p.0 ++ p.1
close-append (front, []) = refl
close-append (front, d ∷ rest) = append_assoc front (d ∷ []) rest

pair_up-append :
    (rules : Rules) (c : ℕ) (t : Text) → (pair_up rules c t).0 ++ (pair_up rules c t).1 ≡ c ∷ t
pair_up-append rules c [] = refl
pair_up-append rules c (d ∷ t) = ground arith

front_word-append :
    (rules : Rules) (t : Text) → (front_word rules t).0 ++ (front_word rules t).1 ≡ t
front_word-append rules [] = refl
front_word-append rules (c ∷ t) =
    let inside : ℕ → Bool = λ d. not (d == rules.delimiter_end) in
    let quoted : (put c (close (span inside t))).0 ++ (close (span inside t)).1 ≡ c ∷ t =
      ap (λ u. c ∷ u) (close-append (span inside t) ∙ span-append inside t) in
    elim (Bool-cases (c == rules.delimiter_begin)) [
      | inl begins ↦ rw begins quoted
      | inr other ↦ elim (Bool-cases (begins_separator rules c)) [
        | inl sep ↦ rw (other, sep) (pair_up-append rules c t)
        | inr word ↦ rw (other, word) (rw word at (span-append (is_plain rules) (c ∷ t)))
      ]
    ]

-- After the blanks: a word is cut, or there is none.
cut-Cuts :
    (rules : Rules) (fuel : ℕ) (t : Text) (result : Option (ℕ × Reader))
    → IsCString t
    → length t < fuel
    → Skips result t
    → (c : ℕ) × (r : Reader) × (result ≡ some (c, r))
      × Cuts (word_from rules fuel c r) [] (front_word rules t)
unfolding word_from
cut-Cuts rules fuel [] result text h (r, found, after) = (0, r, found, (r, refl, after))
cut-Cuts rules fuel (c ∷ t) result text h (r, found, after, pushed) =
    (c, r, found, word_from-Cuts rules fuel c t r after pushed text (omega (arith, h)))

true_branch {ℓ} :
    {A : Type ℓ} (b : Bool) (x y : A) → b ≡ true → elim b as (λ _. A) [ true ↦ x | false ↦ y ] ≡ x
true_branch b x y h = rw h

-- A scanner that is to read a new word, with a text ahead that has no 0 in it, and with more fuel
-- than the text has characters: `get_next_word` returns the first word of the text as the
-- recursive description `split_word` has it, keeps it as the last word, and has ahead what follows
-- the word; the blanks before the word, the word and what follows make up the text.
pub get_next_word-split_word :
    (fuel : ℕ) (sc : Scanner) (t : Text)
    → sc.read_new_word ≡ true
    → Ahead sc.reader t
    → IsCString t
    → length t < fuel
    → let (word, rest) = split_word sc.rules t in
      (r : Reader) × (get_next_word fuel sc
        ≡ some (word, record sc { reader = r; last_word = word }))
      × Ahead r rest
      × ((span (is_blank sc.rules) t).0 ++ (word ++ rest) ≡ t)
unfolding get_next_word
get_next_word-split_word fuel sc t new ahead text h =
    let after = (span (is_blank sc.rules) t).1 in
    let small : length after < fuel = omega (arith, h, span-length (is_blank sc.rules) t) in
    let (c, r, skipped, (r', found, left)) =
      cut-Cuts sc.rules fuel after _ (span-IsCString (is_blank sc.rules) t text) small
        (skip_blanks-Skips sc.rules fuel t sc.reader ahead text h) in
    (
      r',
      true_branch sc.read_new_word _ _ new ∙ rw (skipped, found),
      left,
      ap (λ u. (span (is_blank sc.rules) t).0 ++ u) (front_word-append sc.rules after)
          ∙ span-append (is_blank sc.rules) t,
    )
