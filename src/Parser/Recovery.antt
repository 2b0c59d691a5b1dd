-- ===== src/Parser/Recovery.antt =====
-- What `ParsePatch` does after an error.
pub mod Tests
use emufxtool.Base.{
  ℕ, zero, suc, ◌<◌, ◌≡◌, ◌≢◌, refl, sym, ◌∙◌, ap, Bool, true, false, Option, none, some, List,
  length-append, [], ◌∷◌, ◌++◌, ◌||◌, length, arith, Bool-cases, Option-cases, inl, inr,
  if◌then◌else◌,
}
use emufxtool.Base.Text.{Text, IsCString}
use emufxtool.Scanner.Tables as ScannerTables
use emufxtool.Scanner.Tables.{Rules, is_blank}
use emufxtool.Scanner.Stream.{Reader}
use emufxtool.Scanner.Words as ScannerWords
use emufxtool.Scanner.Words.{Scanner}
use emufxtool.Scanner.Reading.{Ahead}
use emufxtool.Scanner.Splitting.{split_word, span}
use emufxtool.Scanner.NextWord.{get_next_word-split_word}
use emufxtool.Parser.Tokens
use emufxtool.Parser.State.{Library, Error, Parser, Outcome, Method, ◌>>=◌, catch, ok, err, stuck}
use emufxtool.Parser.Reading.{token_of, get_unparsed_word, get_unparsed_token, error_text, report}
use emufxtool.Parser.Blocks.{is_symbol, is_eof}
use emufxtool.Parser.Program.{
  forget_labels, point_labels, skip_statement, recover, patch_body, patch_round, patch_loop,
  parse_patch,
}

-- `ToEnd rules ends t word rest`: the first word of `t` that passes the test is `word`, before
-- `rest`.
pub data ToEnd (rules : Rules) (ends : Text → Bool) : Text → Text → Text → Type 0 where
  stops :
      {t : Text}
      → ends (split_word rules t).0 ≡ true
      → ToEnd rules ends t (split_word rules t).0 (split_word rules t).1
  goes :
      {t word rest : Text}
      → ends (split_word rules t).0 ≡ false
      → ToEnd rules ends (split_word rules t).1 word rest
      → ToEnd rules ends t word rest

IsCString-tail : (s t : Text) → IsCString (s ++ t) → IsCString t
IsCString-tail [] t h = h
IsCString-tail (c ∷ s) t (ne, h) = IsCString-tail s t h

-- What follows a word is shorter than the text.
shorter :
    (front word rest t : Text) → front ++ (word ++ rest) ≡ t → word ≢ [] → length rest < length t
shorter front [] rest t e ne = absurd (ne refl)
shorter front (c ∷ word) rest t e ne =
    rw (sym e)
      (omega (arith, length-append front ((c ∷ word) ++ rest), length-append (c ∷ word) rest))

-- No exception.
abbrev pub NotThrown {ℓ} : {A : Type ℓ} → Outcome A → Type 0
NotThrown (ok x p) = Unit
NotThrown (err e p) = ⊥
NotThrown stuck = Unit

then-NotThrown {ℓ κ} :
    {A : Type ℓ} {B : Type κ} (o : Outcome A) (f : A → Method B)
    → NotThrown o
    → ((x : A) (p : Parser) → NotThrown (f x p))
    → NotThrown (elim o as (λ _. Outcome B) [ ok x p ↦ f x p | err e p ↦ err e p | stuck ↦ stuck ])
then-NotThrown (ok x p) f h k = k x p
then-NotThrown (err e p) f h k = h
then-NotThrown stuck f h k = tt

caught-NotThrown {ℓ} :
    {A : Type ℓ} (o : Outcome A) (handler : Error → Method A)
    → ((e : Error) (p : Parser) → NotThrown (handler e p))
    → NotThrown
        (elim o as (λ _. Outcome A) [ ok x p ↦ ok x p | err e p ↦ handler e p | stuck ↦ stuck ])
caught-NotThrown (ok x p) handler k = tt
caught-NotThrown (err e p) handler k = k e p
caught-NotThrown stuck handler k = tt

get_unparsed_word-NotThrown : (fuel : ℕ) (p : Parser) → NotThrown (get_unparsed_word fuel p)
unfolding get_unparsed_word
get_unparsed_word-NotThrown fuel p =
    elim (ScannerWords.get_next_word fuel p.scanner)
      as (λ found. NotThrown (elim found as (λ _. Outcome Text) [
        | none ↦ stuck
        | some x ↦ ok x.0 (record p { scanner = x.1 })
      ])) [ none ↦ tt | some x ↦ tt ]

module _ (lib : Library) where
  -- Does the word end a statement, or the text?
  abbrev pub ends : Parser → Text → Bool
  ends p word =
      is_eof (token_of lib word p) || is_symbol (token_of lib word p) Tokens.t_instruction_end

  ends_not_empty : (p : Parser) (word : Text) → ends p word ≡ false → word ≢ []
  unfolding token_of ScannerTables.token
  ends_not_empty p [] h = cc
  ends_not_empty p (c ∷ word) h = cc

  -- The parser after the scanner has read some words.
  abbrev pub after_word : Parser → Reader → Text → Parser
  after_word p r word = record p { scanner = record p.scanner { reader = r; last_word = word } }

  get_unparsed_token_lem :
      (fuel : ℕ) (p : Parser) (word : Text) (r : Reader)
      → ScannerWords.get_next_word fuel p.scanner
        ≡ some (word, record p.scanner { reader = r; last_word = word })
      → get_unparsed_token lib fuel p ≡ ok (token_of lib word p) (after_word p r word)
  unfolding get_unparsed_token token_of
  get_unparsed_token_lem fuel p word r h =
      let read : get_unparsed_word fuel p ≡ ok word (after_word p r word) =
        unfold get_unparsed_word in rw (h, get_unparsed_word) refl in
      rw (read, ◌>>=◌) refl

  abbrev pub IsAtEnd : Parser → Text → Outcome (Unit {0}) → Type 0
  IsAtEnd p t result =
      (word : Text) × (rest : Text) × (r : Reader) × (result ≡ ok tt (after_word p r word))
      × Ahead r rest
      × ToEnd p.scanner.rules (ends p) t word rest

  skip_statement-IsAtEnd :
      (fuel rounds : ℕ) (p : Parser) (t : Text)
      → p.scanner.read_new_word ≡ true
      → Ahead p.scanner.reader t
      → IsCString t
      → length t < fuel
      → length t < rounds
      → IsAtEnd p t (skip_statement lib fuel rounds p)
  unfolding skip_statement token_of
  skip_statement-IsAtEnd fuel zero p t new ahead text h h' = absurd (omega (arith, h'))
  skip_statement-IsAtEnd fuel (suc rounds) p t new ahead text h h' =
      let (r, found, left, whole) = get_next_word-split_word fuel p.scanner t new ahead text h in
      let word = (split_word p.scanner.rules t).0 in
      let rest = (split_word p.scanner.rules t).1 in
      let read = get_unparsed_token_lem fuel p word r found in
      elim (Bool-cases (ends p word)) [
        | inl last ↦ (word, rest, r, rw (read, skip_statement, ◌>>=◌, last) refl, left, stops last)
        | inr other ↦
            let small =
              shorter (span (is_blank p.scanner.rules) t).0 word rest t whole
                (ends_not_empty p word other) in
            let clean = IsCString-tail word rest (
              IsCString-tail (span (is_blank p.scanner.rules) t).0 (word ++ rest)
                (rw whole text)) in
            let (word', rest', r', done, left', way) =
              skip_statement-IsAtEnd fuel rounds (after_word p r word) rest new left clean
                (omega (arith, small, h)) (omega (arith, small, h')) in
            (word', rest', r', rw (read, skip_statement, ◌>>=◌, other) done, left', goes other way)
      ]

  -- After an error: it is reported, and the rest of its statement is skipped.
  abbrev pub IsRecovered : List ℕ → Error → Parser → Text → Outcome (Option (List ℕ)) → Type 0
  IsRecovered waiting e p t result =
      (word : Text) × (rest : Text) × (r : Reader) × (result
        ≡ ok (some waiting)
            (after_word (record p { errors = p.errors ++ error_text e p ∷ [] }) r word))
      × Ahead r rest
      × ToEnd p.scanner.rules (ends p) t word rest

  -- Where the statement of a round throws and leaves a word to be read and a text ahead that has no 0
  -- in it, and where the fuel is more than the text has characters, the round returns, with the
  -- same labels waiting: the text of the error is added to the errors, the text is read up to the first word
  -- that ends a statement or up to its end, and nothing else of what the statement left is changed.
  pub patch_round-IsRecovered :
      (fuel : ℕ) (waiting : List ℕ) (p p' : Parser) (e : Error) (t : Text)
      → patch_body lib fuel waiting p ≡ err e p'
      → p'.scanner.read_new_word ≡ true
      → Ahead p'.scanner.reader t
      → IsCString t
      → length t < fuel
      → IsRecovered waiting e p' t (patch_round lib fuel waiting p)
  unfolding patch_round recover report token_of
  patch_round-IsRecovered fuel waiting p p' e t thrown new ahead text h =
      let (word, rest, r, done, left, way) =
        skip_statement-IsAtEnd fuel fuel (record p' { errors = p'.errors ++ error_text e p' ∷ [] })
          t new ahead text h h in
      (word, rest, r, rw (thrown, patch_round, catch, done, ◌>>=◌) refl, left, way)

  skip_statement-NotThrown :
      (fuel rounds : ℕ) (p : Parser) → NotThrown (skip_statement lib fuel rounds p)
  unfolding skip_statement get_unparsed_token
  skip_statement-NotThrown fuel zero p = tt
  skip_statement-NotThrown fuel (suc rounds) p =
      then-NotThrown _ _ (then-NotThrown _ _ (get_unparsed_word-NotThrown fuel p) (λ x p'. tt))
        (λ token p'. elim (Bool-cases (is_eof token || is_symbol token Tokens.t_instruction_end)) [
          | inl last ↦ rw last tt
          | inr other ↦ rw other (skip_statement-NotThrown fuel rounds p')
        ])

  recover-NotThrown :
      (fuel : ℕ) (waiting : List ℕ) (e : Error) (p : Parser)
      → NotThrown (recover lib fuel waiting e p)
  unfolding recover report
  recover-NotThrown fuel waiting e p =
      then-NotThrown _ _ (skip_statement-NotThrown fuel fuel _) (λ x p'. tt)

  forget_labels-NotThrown : (waiting : List ℕ) (p : Parser) → NotThrown (forget_labels waiting p)
  unfolding forget_labels
  forget_labels-NotThrown waiting p =
      elim (Option-cases (point_labels none waiting p.program.elements)) [
        | inl lost ↦ rw (lost, forget_labels) tt
        | inr (es, done) ↦ rw (done, forget_labels) tt
      ]

  patch_loop-NotThrown :
      (fuel rounds : ℕ) (waiting : List ℕ) (p : Parser)
      → NotThrown (patch_loop lib fuel rounds waiting p)
  unfolding patch_loop patch_round
  patch_loop-NotThrown fuel zero waiting p = tt
  patch_loop-NotThrown fuel (suc rounds) waiting p =
      then-NotThrown _ _
        (caught-NotThrown (patch_body lib fuel waiting p) _ (recover-NotThrown fuel waiting))
        (λ next p'. elim (Option-cases next) [
          | inl none_left ↦ rw none_left (forget_labels-NotThrown waiting p')
          | inr (waiting', more) ↦ rw more (patch_loop-NotThrown fuel rounds waiting' p')
        ])

  -- Whatever the parser's state and the input, no exception leaves `parse_patch`: each is caught
  -- in its round.
  pub parse_patch-NotThrown : (fuel : ℕ) (p : Parser) → NotThrown (parse_patch lib fuel p)
  unfolding parse_patch
  parse_patch-NotThrown fuel p = patch_loop-NotThrown fuel fuel [] p
