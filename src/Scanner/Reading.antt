-- ===== src/Scanner/Reading.antt =====
-- What a reader has ahead of it, and how its characters are read and pushed back.
use emufxtool.Base.{
  ℕ, zero, suc, ap, ◌+◌, ◌≤◌, ◌≡◌, refl, some, [], ◌∷◌, length, get_or, drop, arith, if◌then◌else◌,
}
use emufxtool.Base.Text.{Text}
use emufxtool.Scanner.Stream.{
  ParserStream, eof, get_char, push_back_char, Reader, get_next_char, push_back,
}

-- The characters that a stream gives before its end.
abbrev pub unread : ParserStream → Text
unread s =
    if s.read_new_char
    then drop s.char_ptr s.data_text
    else s.last_char ∷ drop s.char_ptr s.data_text

-- The reader gives the characters of `t`, and then no more.
pub record Ahead (r : Reader) (t : Text) : Type 0 where
  pub stream : ParserStream
  pub is_stream : r.p_stream ≡ some stream
  pub inside : stream.char_ptr ≤ length stream.data_text
  pub text : unread stream ≡ t

drop-cons :
    (n c : ℕ) (xs t : Text)
    → drop n xs ≡ c ∷ t
    → (get_or xs n 0 ≡ c) × (drop (n + 1) xs ≡ t) × (n + 1 ≤ length xs)
drop-cons zero c [] t h = cc
drop-cons zero c (x ∷ xs) t h = ground (arith, h)
drop-cons (suc n) c [] t h = cc
drop-cons (suc n) c (x ∷ xs) t h = ground (arith, drop-cons n c xs t h)

drop_all : (n : ℕ) (xs : Text) → drop n xs ≡ [] → n ≤ length xs → n ≡ length xs
drop_all zero [] h p = refl
drop_all zero (x ∷ xs) h p = cc
drop_all (suc n) [] h p = omega (arith, p)
drop_all (suc n) (x ∷ xs) h p = ap suc (drop_all n xs h (omega (arith, p)))

get_char-nil :
    (s : ParserStream) → s.char_ptr ≤ length s.data_text → unread s ≡ [] → get_char s ≡ (0, s)
unfolding get_char eof
get_char-nil s inside h = ground (arith, drop_all s.char_ptr s.data_text, h)

-- What a stream is after a character.
record Next (s s' : ParserStream) (c : ℕ) (t : Text) : Type 0 where
  result : get_char s ≡ (c, s')
  inside : s'.char_ptr ≤ length s'.data_text
  after : unread s' ≡ t
  pushed : unread (push_back_char s') ≡ c ∷ t

get_char-cons :
    (s : ParserStream) (c : ℕ) (t : Text)
    → s.char_ptr ≤ length s.data_text
    → unread s ≡ c ∷ t
    → (s' : ParserStream) × Next s s' c t
unfolding get_char eof push_back_char
get_char-cons s c t inside h =
    let known = drop-cons s.char_ptr c s.data_text t in
    (
      (get_char s).1,
      record {
        result = ground (arith, h, known);
        inside = ground (arith, h, known);
        after = ground (arith, h, known);
        pushed = ground (arith, h, known);
      },
    )

pub get_next_char-nil :
    (r : Reader) → Ahead r [] → get_next_char r ≡ (0, record r { last_char = 0 })
unfolding get_next_char
get_next_char-nil r ahead = rw (ahead.is_stream, get_char-nil ahead.stream ahead.inside ahead.text)

-- A reader after a character: what it has ahead, and what if the character is pushed back.
pub record Reads (r r' : Reader) (c : ℕ) (t : Text) : Type 0 where
  pub result : get_next_char r ≡ (c, r')
  pub after : Ahead r' t
  pub pushed : Ahead (push_back r') (c ∷ t)

pub get_next_char-cons :
    (r : Reader) (c : ℕ) (t : Text) → Ahead r (c ∷ t) → (r' : Reader) × Reads r r' c t
unfolding get_next_char push_back push_back_char
get_next_char-cons r c t ahead =
    let (s', next) = get_char-cons ahead.stream c t ahead.inside ahead.text in
    (
      record { p_stream = some s'; last_char = c },
      record {
        result = rw (ahead.is_stream, next.result);
        after = record { stream = s'; is_stream = refl; inside = next.inside; text = next.after };
        pushed = record {
          stream = push_back_char s';
          is_stream = refl;
          inside = next.inside;
          text = next.pushed;
        };
      },
    )

-- At the end too: what was not there is not ahead.
pub get_next_char-end :
    (r : Reader) → Ahead r [] → (r' : Reader) × (get_next_char r ≡ (0, r')) × Ahead r' []
get_next_char-end r ahead = (
  record r { last_char = 0 },
  get_next_char-nil r ahead,
  record {
    stream = ahead.stream;
    is_stream = ahead.is_stream;
    inside = ahead.inside;
    text = ahead.text;
  },
)
