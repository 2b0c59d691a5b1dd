-- ===== src/Parser/Numerals.antt =====
-- Numbers in expressions: `GetNextFloat` and the cases of `ParseExpressionElement` that make one.
use emufxtool.Base.{
  ℕ, ◌-◌, Bool, true, false, [], ◌++◌, ◌==◌, ◌&&◌, ◌||◌, length, get_or, drop, take, if◌then◌else◌,
}
use Prim.Native.Nat.{bit_or}
use emufxtool.Base.Text.{Text, codes}
use emufxtool.Flags.{v_read, v_value}
use emufxtool.Expression.Numbers.{isnum, from_char}
use emufxtool.Scanner.Tables.{Token, token_int, token_float, get_symbol}
use emufxtool.Compiler.Objects.{Operand, constant}
use emufxtool.Parser.Tokens
use emufxtool.Parser.State.{Library, Method, pure, ok, ◌>>=◌, ◌>>◌, gets}
use emufxtool.Parser.Reading.{to_upper, throw_err, throw_err_s, get_last_word, token_of}
use emufxtool.Parser.Blocks.{is_symbol, token_by}

abbrev last_char : Text → ℕ
last_char s = get_or s (length s - 1) 0

abbrev pub set_last_word : Text → Method (Unit {0})
set_last_word w p = ok tt (record p { scanner = record p.scanner { last_word = w } })

abbrev pub is_int : Token → Bool
is_int token_int = true
is_int t = false

abbrev is_number : Token → Bool
is_number token_int = true
is_number token_float = true
is_number t = false

abbrev pub is_float : Token → Bool
is_float token_float = true
is_float t = false

module _ (lib : Library) where
  -- `new emuNumber(text, ctype)`
  unfoldable pub new_number : Text → ℕ → Operand
  new_number text ctype =
      constant (bit_or v_read v_value) (from_char lib.scan_fraction lib.scan_time text ctype).0
        lib.unset_type

  -- The exponent behind a mantissa that ends in `E`, with its sign.
  unfoldable pub get_exponent : Method Text → Method (Text × Text)
  unfolding token_by
  get_exponent next = do
    sign ← token_by lib next
    word ← get_last_word
    let signed = (do
      exponent ← token_by lib next
      digits ← get_last_word
      pure (word, if is_int exponent then digits else []))
    if is_symbol sign Tokens.t_plus || is_symbol sign Tokens.t_minus
        then signed
        else pure (if is_int sign then (codes "+", word) else ([], []))

  unfoldable pub get_next_float : Method Text → Method Text
  unfolding token_of get_exponent
  get_next_float next = do
    word ← next
    token ← gets (token_of lib word)
    let mantissa = take (length word - 1) word
    let with_exponent = (do
      (sign, exponent) ← if lib.sscanf_lf mantissa then get_exponent next else pure ([], [])
      let whole = mantissa ++ (codes "E" ++ (sign ++ exponent))
      set_last_word whole
      pure whole)
    if is_float token
        then pure word
        else if to_upper (last_char word) == 0x45
        then with_exponent
        else if lib.sscanf_lf word
        then pure word
        else throw_err_s word (codes "found where <floating point number> expected")

  -- A number behind a sign of its base.
  unfoldable pub based_number : Method Text → ℕ → ℕ → Text → Method Operand
  unfolding new_number
  based_number next base ctype complaint = do
    digits ← next
    if isnum digits base then pure (new_number digits ctype) else throw_err complaint

  unfoldable pub float_number : Method Text → Token → Method Operand
  unfolding get_next_float new_number
  float_number next token = do
    ctype ← gets (λ p. get_or (get_symbol p.scanner.rules token) 0 0)
    digits ← get_next_float next
    kind ← gets (token_of lib digits)
    if is_number kind
        then pure (new_number digits ctype)
        else throw_err (codes "invalid floating point number")

  unfoldable pub int_number : Text → Method Operand
  unfolding new_number
  int_number digits =
      if get_or digits 0 0 == 0x30 && get_or digits 1 0 == 0x78 && isnum (drop 2 digits) 16
      then pure (new_number (drop 2 digits) 0x24)
      else if isnum digits 10
      then pure (new_number digits 0x64)
      else throw_err (codes "unexpected inside expression")
