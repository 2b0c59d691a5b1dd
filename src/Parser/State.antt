-- ===== src/Parser/State.antt =====
-- The state of `emuParser`, its exceptions and the monad of its methods.
use emufxtool.Base.{ℕ, Bool, true, Option, none, some, List, []}
use emufxtool.Base.Text.{Text, text_key}
use emufxtool.Base.Table.{Table}
use emufxtool.Symbols.Values.{PropertyList}
use emufxtool.Symbols.Macros.{Macro}
use emufxtool.Expression.Trees.{NType}
use emufxtool.Scanner.Stream.{ParserStream}
use emufxtool.Scanner.Words.{Scanner}
use emufxtool.Compiler.Objects.{Program}
use emufxtool.Parser.Setup.{parser_rules}

-- What the parser calls and the source does not contain: `sscanf` of an integer and of a fraction
-- (does it return other than 0?), the values of `sscanf` that `from_char` uses, `fopen` with the content of
-- a file, and the type that a new `emuNumber` finds in its memory.
pub record Library : Type 0 where
  pub sscanf_li : Text → Bool
  pub sscanf_lf : Text → Bool
  pub scan_fraction : Text → Option ℕ
  pub scan_time : Text → Option ℕ
  pub open_file : Text → Option Text
  pub unset_type : NType

-- `emuException`: its symbol, message, the names of the streams and the line.
pub record Error : Type 0 where
  pub symbol : Text
  pub message : Text
  pub streams : Text
  pub line : ℕ

pub record Parser : Type 0 where
  pub scanner : Scanner
  pub streams : List (Option ParserStream)
  pub program : Program
  pub macros : Table Text Macro
  pub props : PropertyList
  pub options : ℕ
  pub current_tram : ℕ
  pub errors : List Text

abbrev pub new_parser : Parser
new_parser = record {
  scanner = record {
    rules = parser_rules;
    reader = record { p_stream = none; last_char = 0 };
    last_word = [];
    read_new_word = true;
  };
  streams = [];
  program = record { elements = []; symlist = []; symtab = []; ilist = [] };
  macros = [];
  props = [];
  options = 0;
  current_tram = 0;
  errors = [];
}

-- How a method ends. `stuck`: the fuel ran out, or the source has no defined behaviour.
pub data Outcome {ℓ} (A : Type ℓ) : Type ℓ where
  ok : A → Parser → Outcome A
  err : Error → Parser → Outcome A
  stuck : Outcome A

abbrev pub Method {ℓ} : Type ℓ → Type ℓ
Method A = Parser → Outcome A

abbrev pub pure {ℓ} : {A : Type ℓ} → A → Method A
pure x p = ok x p

infixl 5 ◌>>=◌ ◌>>◌
abbrev pub ◌>>=◌ {ℓ κ} : {A : Type ℓ} {B : Type κ} → Method A → (A → Method B) → Method B
◌>>=◌ m f p = elim (m p) [ ok x p' ↦ f x p' | err e p' ↦ err e p' | stuck ↦ stuck ]

abbrev pub ◌>>◌ {ℓ} : {B : Type ℓ} → Method (Unit {0}) → Method B → Method B
m >> k = m >>= λ _. k

abbrev pub gets {ℓ} : {A : Type ℓ} → (Parser → A) → Method A
gets f p = ok (f p) p

abbrev pub modify : (Parser → Parser) → Method (Unit {0})
modify f p = ok tt (f p)

abbrev pub give_up {ℓ} : {A : Type ℓ} → Method A
give_up p = stuck

-- A value that is `none` where the source's behaviour is not defined.
abbrev pub defined {ℓ} : {A : Type ℓ} → Option A → Method A
defined none = give_up
defined (some x) = pure x

abbrev pub catch {ℓ} : {A : Type ℓ} → Method A → (Error → Method A) → Method A
catch m handler p = elim (m p) [ ok x p' ↦ ok x p' | err e p' ↦ handler e p' | stuck ↦ stuck ]
