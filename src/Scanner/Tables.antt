-- ===== src/Scanner/Tables.antt =====
-- The separators, blanks and tokens of a scanner.
use Prim.Native.Nat.{bit_and, bit_or}
use emufxtool.Base.{
  ℕ, Bool, false, none, some, List, [], ◌∷◌, ◌++◌, ◌==◌, ◌||◌, ◌&&◌, not, get_or, length, ◌-◌,
  if◌then◌else◌,
}
use emufxtool.Base.Text.{Text, codes, text_key}
use emufxtool.Base.Table.{Table, lookup, insert}
use emufxtool.Words.{u8, u16, ◌<<<◌}

-- The results of `Token`: the `TOKEN_` constants that it returns, and the numbers of a map. The
-- source gives `TOKEN_NULL` and `TOKEN_EOF` one number.
pub data Token : Type 0 where
  token_unknown token_string token_int token_float token_eof token_identifier : Token
  symbol : ℕ → Token

-- `separators` and `blanks` are the arrays up to their closing 0.
pub record Rules : Type 0 where
  pub separators : List ℕ
  pub blanks : Text
  pub tokens : Table Text ℕ
  pub delimiter_begin : ℕ
  pub delimiter_end : ℕ

-- What the constructor of `Scanner` sets.
abbrev pub new_rules : Rules
new_rules = record {
  separators = [];
  blanks = [];
  tokens = [];
  delimiter_begin = 0x22;
  delimiter_end = 0x22;
}

-- `MAKE_SEP`
abbrev pub make_sep : ℕ → ℕ → ℕ
make_sep a b = u16 (bit_or (u8 a) (u8 b <<< 8))

abbrev pub elem : ℕ → List ℕ → Bool
elem n [] = false
elem n (x ∷ xs) = x == n || elem n xs

unfoldable pub is_separator : Rules → ℕ → ℕ → Bool
is_separator r sep second = elem (make_sep sep second) r.separators

abbrev pub any_begins : List ℕ → ℕ → Bool
any_begins [] sep = false
any_begins (x ∷ xs) sep = bit_and x 0xff == sep || any_begins xs sep

unfoldable pub begins_separator : Rules → ℕ → Bool
begins_separator r sep = any_begins r.separators sep

unfoldable pub is_blank : Rules → ℕ → Bool
is_blank r blank = elem blank r.blanks

-- The two characters are not both 0.
unfoldable pub add_separator : ℕ → ℕ → Rules → Rules
unfolding is_separator
add_separator sep second r =
    if is_separator r sep second
    then r
    else record r { separators = r.separators ++ make_sep sep second ∷ [] }

unfoldable pub add_blank : ℕ → Rules → Rules
unfolding is_blank
add_blank blank r = if is_blank r blank then r else record r { blanks = r.blanks ++ blank ∷ [] }

-- `TokenMap::AddToken`: `insert` of a `std::map` keeps what is there.
unfoldable pub add_token : Text → ℕ → Rules → Rules
add_token key tok r = elim (lookup key r.tokens) [
  | some _ ↦ r
  | none ↦ record r { tokens = insert key tok r.tokens }
]

unfoldable pub get_token : Rules → Text → Token
get_token r key = elim (lookup key r.tokens) [ none ↦ token_unknown | some tok ↦ symbol tok ]

-- `TokenMap::GetSymbol`
unfoldable pub first_symbol : Table Text ℕ → ℕ → Text
first_symbol [] token = []
first_symbol ((key, tok) ∷ tokens) token = if tok == token then key else first_symbol tokens token

-- `Scanner::GetSymbol`
unfoldable pub get_symbol : Rules → Token → Text
unfolding first_symbol
get_symbol r token_int = codes "<integer value>"
get_symbol r token_float = codes "<number>"
get_symbol r token_identifier = codes "<identifier>"
get_symbol r (symbol n) = first_symbol r.tokens n
get_symbol r other = []

-- `sscanf` with a format of one number is a parameter: does it return other than 0? So is
-- `IsIdentifier`, which a parser overrides.
unfoldable pub token : (sscanf_li sscanf_lf is_identifier : Text → Bool) → Rules → Text → Token
unfolding get_token
token sscanf_li sscanf_lf is_identifier r [] = token_eof
token sscanf_li sscanf_lf is_identifier r (c ∷ cs) =
    let word = c ∷ cs in
    if c == 0xff || (c == 0 || c == 0x1a)
    then token_eof
    else if c == r.delimiter_begin && get_or word (length word - 1) 0 == r.delimiter_end
    then token_string
    else elim (lookup word r.tokens) [
      | some tok ↦ symbol tok
      | none ↦
          if not (elem 0x2e word) && sscanf_li word
          then token_int
          else if sscanf_lf word
          then token_float
          else if is_identifier word
          then token_identifier
          else token_unknown
    ]
