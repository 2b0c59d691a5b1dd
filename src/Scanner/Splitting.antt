-- ===== src/Scanner/Splitting.antt =====
-- `GetNextWord` cuts the text ahead into words: the loops against a recursive description.
use mathlib.Core.List.{append_assoc, append-nil}
use emufxtool.Base.{
  ℕ, zero, suc, ◌+◌, ◌<◌, ◌≡◌, ◌≢◌, refl, ap, ◌∙◌, Bool, true, false, Option, some, [], ◌∷◌, ◌++◌,
  ◌==◌, ◌||◌, not, length, arith, if◌then◌else◌, Bool-cases, inl, inr,
}
use emufxtool.Base.Text.{Text, IsCString}
use emufxtool.Words.{is_set}
use emufxtool.Scanner.Tables.{Rules, is_separator, begins_separator, is_blank}
use emufxtool.Scanner.Stream.{Reader, get_next_char, push_back}
use emufxtool.Scanner.Words.{string_word, separator_word, plain_word, word_from}
use emufxtool.Scanner.Reading.{Ahead, get_next_char-cons, get_next_char-end}

-- The longest front of a text whose characters pass a test, and the rest.
abbrev pub span : (ℕ → Bool) → Text → Text × Text
span p [] = ([], [])
span p (c ∷ t) = let (front, rest) = span p t in if p c then (c ∷ front, rest) else ([], c ∷ t)

-- A character of a word that is neither string nor separator.
abbrev pub is_plain : Rules → ℕ → Bool
is_plain rules c = not (begins_separator rules c || is_blank rules c)

-- The closing delimiter is part of the string.
abbrev pub close : Text × Text → Text × Text
close (front, []) = (front, [])
close (front, d ∷ rest) = (front ++ d ∷ [], rest)

-- A separator of two characters where there is one.
abbrev pub pair_up : Rules → ℕ → Text → Text × Text
pair_up rules c [] = (c ∷ [], [])
pair_up rules c (d ∷ t) = if is_separator rules c d then (c ∷ d ∷ [], t) else (c ∷ [], d ∷ t)

abbrev pub put : ℕ → Text × Text → Text × Text
put c (front, rest) = (c ∷ front, rest)

-- The word at the front of a text without leading blanks, and the rest.
abbrev pub front_word : Rules → Text → Text × Text
front_word rules [] = ([], [])
front_word rules (c ∷ t) =
    if c == rules.delimiter_begin
    then put c (close (span (λ d. not (d == rules.delimiter_end)) t))
    else if begins_separator rules c
    then pair_up rules c t
    else span (is_plain rules) (c ∷ t)

-- The first word of a text, and the rest.
abbrev pub split_word : Rules → Text → Text × Text
split_word rules t = front_word rules (span (is_blank rules) t).1

close-put : (c : ℕ) (p : Text × Text) → close (put c p) ≡ put c (close p)
close-put c (front, []) = refl
close-put c (front, d ∷ rest) = refl

-- What a loop returns: the word so far with the front of `p`, before the rest of `p`.
abbrev pub Cuts : Option (Text × Reader) → Text → Text × Text → Type 0
Cuts result word p = (r : Reader) × (result ≡ some (word ++ p.0, r)) × Ahead r p.1

Cuts-put :
    (result : Option (Text × Reader)) (word : Text) (c : ℕ) (p : Text × Text)
    → Cuts result (word ++ c ∷ []) p
    → Cuts result word (put c p)
Cuts-put result word c p (r, found, after) =
    (r, found ∙ ap (λ t. some (t, r)) (append_assoc word (c ∷ []) p.0), after)

string_word-Cuts :
    (rules : Rules) (fuel : ℕ) (word t : Text) (r : Reader)
    → Ahead r t
    → IsCString t
    → length t < fuel
    → Cuts
        (string_word rules fuel word r)
        word
        (close (span (λ d. not (d == rules.delimiter_end)) t))
unfolding string_word
string_word-Cuts rules zero word t r ahead text h = absurd (omega (arith, h))
string_word-Cuts rules (suc fuel) word [] r ahead text h =
    let (r', result, after) = get_next_char-end r ahead in
    (r', rw (result, string_word, result, append-nil), after)
string_word-Cuts rules (suc fuel) word (c ∷ t) r ahead (ne, text) h =
    let (r', read) = get_next_char-cons r c t ahead in
    let set : is_set c ≡ true = ground (arith, ne) in
    elim (Bool-cases (c == rules.delimiter_end)) [
      | inl last ↦
          rw last (r', rw (read.result, string_word, set, last, read.result, set), read.after)
      | inr inside ↦
          let step : string_word rules (suc fuel) word r
              ≡ string_word rules fuel (word ++ c ∷ []) r' =
            rw (read.result, string_word, set, inside, read.result) in
          let ih =
            string_word-Cuts rules fuel (word ++ c ∷ []) t r' read.after text (omega (arith, h)) in
          rw (step, inside, close-put c (span (λ d. not (d == rules.delimiter_end)) t))
            (Cuts-put _ word c _ ih)
    ]

-- A plain word ends at the end of the text.
plain_word_end :
    (rules : Rules) (fuel : ℕ) (word : Text) (r : Reader)
    → 0 < fuel
    → plain_word rules fuel word 0 r ≡ some (word, r)
unfolding plain_word
plain_word_end rules zero word r h = absurd (omega (arith, h))
plain_word_end rules (suc fuel) word r h = refl

-- What a plain word does with a character that belongs to it.
plain_word_more :
    (rules : Rules) (fuel : ℕ) (word : Text) (c c' : ℕ) (r r' : Reader)
    → c ≢ 0
    → (begins_separator rules c || is_blank rules c) ≡ false
    → get_next_char r ≡ (c', r')
    → plain_word rules (suc fuel) word c r ≡ plain_word rules fuel (word ++ c ∷ []) c' r'
unfolding plain_word
plain_word_more rules fuel word c c' r r' ne plain result =
    let set : is_set c ≡ true = ground (arith, ne) in rw (set, plain, result, plain_word)

-- The character that ends a plain word is pushed back.
plain_word-stop :
    (rules : Rules) (fuel : ℕ) (word : Text) (c : ℕ) (t : Text) (r : Reader)
    → Ahead (push_back r) (c ∷ t)
    → c ≢ 0
    → (begins_separator rules c || is_blank rules c) ≡ true
    → Cuts (plain_word rules (suc fuel) word c r) word (span (is_plain rules) (c ∷ t))
unfolding plain_word
plain_word-stop rules fuel word c t r pushed ne stop =
    let set : is_set c ≡ true = ground (arith, ne) in
    rw stop (push_back r, rw (plain_word, set, stop, append-nil), pushed)

plain_word-Cuts :
    (rules : Rules) (fuel : ℕ) (word : Text) (c : ℕ) (t : Text) (r : Reader)
    → Ahead r t
    → Ahead (push_back r) (c ∷ t)
    → IsCString (c ∷ t)
    → length t + 1 < fuel
    → Cuts (plain_word rules fuel word c r) word (span (is_plain rules) (c ∷ t))
plain_word-Cuts rules zero word c t r ahead pushed text h = absurd (omega (arith, h))
plain_word-Cuts rules (suc fuel) word c [] r ahead pushed (ne, text) h =
    elim (Bool-cases (begins_separator rules c || is_blank rules c)) [
      | inl stop ↦ plain_word-stop rules fuel word c [] r pushed ne stop
      | inr go ↦
          let (r', result, after) = get_next_char-end r ahead in
          rw go (
            r',
            plain_word_more rules fuel word c 0 r r' ne go result
                ∙ plain_word_end rules fuel (word ++ c ∷ []) r' (omega (arith, h)),
            after,
          )
    ]
plain_word-Cuts rules (suc fuel) word c (d ∷ t) r ahead pushed (ne, text) h =
    elim (Bool-cases (begins_separator rules c || is_blank rules c)) [
      | inl stop ↦ plain_word-stop rules fuel word c (d ∷ t) r pushed ne stop
      | inr go ↦
          let (r', read) = get_next_char-cons r d t ahead in
          let small : length t + 1 < fuel = omega (arith, h) in
          let ih =
            plain_word-Cuts rules fuel (word ++ c ∷ []) d t r' read.after read.pushed text small in
          rw (go, plain_word_more rules fuel word c d r r' ne go read.result)
            (Cuts-put _ word c _ ih)
    ]

separator_word-Cuts :
    (rules : Rules) (c : ℕ) (t : Text) (r : Reader)
    → Ahead r t
    → IsCString t
    → Cuts (some (separator_word rules c r)) [] (pair_up rules c t)
separator_word-Cuts rules c [] r ahead text =
    let (r', result, after) = get_next_char-end r ahead in
    (r', unfold separator_word in rw (result), after)
separator_word-Cuts rules c (d ∷ t) r ahead (ne, text) =
    let (r', read) = get_next_char-cons r d t ahead in
    let set : is_set d ≡ true = ground (arith, ne) in
    elim (Bool-cases (is_separator rules c d)) [
      | inl two ↦ rw two (r', unfold separator_word in rw (read.result, set, two), read.after)
      | inr one ↦
          rw one (push_back r', unfold separator_word in rw (read.result, set, one), read.pushed)
    ]

pub word_from-Cuts :
    (rules : Rules) (fuel c : ℕ) (t : Text) (r : Reader)
    → Ahead r t
    → Ahead (push_back r) (c ∷ t)
    → IsCString (c ∷ t)
    → length t + 1 < fuel
    → Cuts (word_from rules fuel c r) [] (front_word rules (c ∷ t))
word_from-Cuts rules fuel c t r ahead pushed (ne, text) h =
    let set : is_set c ≡ true = ground (arith, ne) in
    elim (Bool-cases (c == rules.delimiter_begin)) [
      | inl begins ↦ rw begins (
          unfold word_from in
          rw (set, begins)
            (Cuts-put _ [] c _
              (string_word-Cuts rules fuel (c ∷ []) t r ahead text (omega (arith, h)))))
      | inr other ↦ elim (Bool-cases (begins_separator rules c)) [
        | inl sep ↦
            rw (other, sep)
              (unfold word_from in
                rw (set, other, sep) (separator_word-Cuts rules c t r ahead text))
        | inr word ↦
            rw (other, word)
              (unfold word_from in
                rw (set, other, word)
                  (rw word at (plain_word-Cuts rules fuel [] c t r ahead pushed (ne, text) h)))
      ]
    ]
