-- ===== src/Scanner/TableLaws.antt =====
-- Separators, blanks, tokens, and the stack of streams.
use emufxtool.Base.{
  ℕ, ◌+◌, ◌≤◌, ◌<◌, ◌≡◌, refl, Option, none, some, List, [], ◌∷◌, ◌++◌, ◌==◌, ◌||◌, ltb, length,
  arith, if◌then◌else◌, length-append, Bool-cases, Option-cases, inl, inr,
}
use emufxtool.Base.Text.{Text, text_eq, text_eq_iff, text_key}
use emufxtool.Base.Table.{lookup, lookup-insert}
use emufxtool.Scanner.Tables.{
  Rules, Token, symbol, make_sep, elem, is_separator, is_blank, add_separator, add_token, get_token,
}
use emufxtool.Scanner.Stream.{ParserStream, Stack, pop_back, pop_stream, begin_parsing, end_parsing}

elem-snoc : (n m : ℕ) (xs : List ℕ) → elem n (xs ++ m ∷ []) ≡ (elem n xs || m == n)
elem-snoc n m [] = ground arith
elem-snoc n m (x ∷ xs) = ground (arith, elem-snoc n m xs)

-- After a separator is added it is one, and any other pair of characters is a separator as before,
-- where the pairs are told apart by their 16-bit codes; no blank comes or goes.
is_separator-add_separator :
    (r : Rules) (a b c d : ℕ)
    → (is_separator (add_separator a b r) c d
        ≡ (is_separator r c d || make_sep a b == make_sep c d))
      × (is_blank (add_separator a b r) c ≡ is_blank r c)
unfolding is_separator add_separator is_blank
is_separator-add_separator r a b c d =
    ground (arith, elem-snoc (make_sep c d) (make_sep a b) r.separators)

-- After a word is given a token, the word has the token that it had before, or else the new one;
-- every other word keeps its token.
pub get_token-add_token :
    (r : Rules) (key other : Text) (tok : ℕ)
    → get_token (add_token key tok r) other ≡ (
        if text_eq key other
        then elim (lookup key r.tokens) as (λ _. Token) [
          | none ↦ symbol tok
          | some old ↦ symbol old
        ]
        else get_token r other)
unfolding get_token add_token
get_token-add_token r key other tok = elim (Option-cases (lookup key r.tokens)) [
  | inl new ↦
      rw (new, add_token, get_token, lookup-insert key other tok r.tokens)
        (elim (Bool-cases (text_eq key other)) [ inl same ↦ rw same | inr differs ↦ rw differs ])
  | inr (old, known) ↦
      rw (known, add_token)
        (elim (Bool-cases (text_eq key other)) [
          | inl same ↦
              let e : key ≡ other = (text_eq_iff key other).0 same in
              let there : lookup other r.tokens ≡ some old = rw e at known in
              rw (same, get_token, there)
          | inr differs ↦ rw differs
        ])
]

pop_back-snoc {ℓ} : {A : Type ℓ} (x y : A) (ys : List A) → pop_back x (ys ++ y ∷ []) ≡ (y, x ∷ ys)
pop_back-snoc x y [] = refl
pop_back-snoc x y (z ∷ zs) = rw (pop_back-snoc z y zs)

pop_stream-snoc :
    (s : Option ParserStream) (streams : List (Option ParserStream))
    → pop_stream (streams ++ s ∷ []) ≡ (s, streams)
pop_stream-snoc s [] = refl
pop_stream-snoc s (t ∷ streams) = pop_back-snoc t s streams

-- How `begin_parsing` may end on a stack: with the exception where more than 64 streams wait, or
-- with one more that waits, on a stack that `end_parsing` brings back to what it was.
abbrev pub IsBracketed : Stack → Option (ℕ × Stack) → Type 0
IsBracketed k none = 64 < length k.streams
IsBracketed k (some (depth, entered)) =
    (length k.streams ≤ 64) × (depth ≡ length k.streams + 1) × ((end_parsing entered).1 ≡ k)

-- Entering a stream throws where more than 64 streams wait; else one more waits, and leaving the
-- stream brings back the stack as it was before.
pub end_parsing-begin_parsing : (s : ParserStream) (k : Stack) → IsBracketed k (begin_parsing s k)
unfolding begin_parsing end_parsing
end_parsing-begin_parsing s k = elim (Bool-cases (ltb 64 (length k.streams))) [
  | inl full ↦ rw full (ground (arith, full))
  | inr room ↦ rw room (
    ground (arith, room),
    length-append k.streams (k.reader.p_stream ∷ []),
    rw (pop_stream-snoc k.reader.p_stream k.streams),
  )
]
