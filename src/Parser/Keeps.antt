-- ===== src/Parser/Keeps.antt =====
-- Invariants of methods, with a rule for each way to build a method.
pub mod Inside
pub mod Changes
pub mod Words
pub mod Expressions
pub mod Directives
pub mod Declarations
pub mod Programs
pub mod Tests
use emufxtool.Base.{
  ℕ, ◌≡◌, refl, ◌<◌, Bool, true, false, Option, none, some, List, [], ◌∷◌, length, arith,
  if◌then◌else◌,
}
use emufxtool.Base.Text.{Text}
use emufxtool.Parser.State.{
  Parser, Error, Outcome, Method, ok, err, stuck, pure, ◌>>=◌, ◌>>◌, gets, modify, give_up, defined,
  catch,
}
use emufxtool.Symbols.Initializers.{Initializer}
use emufxtool.Symbols.Macros.{Macro}
use emufxtool.Symbols.Instructions.{Label}
use emufxtool.Compiler.Objects.{Element, initializer, label}
use emufxtool.Parser.Keeps.Inside.{IsClosed}
use emufxtool.Parser.Reading.{Meaning, a_macro, an_element}

-- What holds of the state that a method leaves, also where it throws.
abbrev pub Left {ℓ} : {A : Type ℓ} → (Parser → Type 0) → Outcome A → Type 0
Left P (ok x p) = P p
Left P (err e p) = P p
Left P stuck = Unit

pub record Keeps {ℓ} {A : Type ℓ} (P : Parser → Type 0) (m : Method A) : Type ℓ where
  pub at : (p : Parser) → P p → Left P (m p)

module _ {ℓ} {A : Type ℓ} {P : Parser → Type 0} where
  pub Keeps-pure : (a : A) → Keeps P (pure a)
  Keeps-pure a = record { at = λ p h. h }

  pub Keeps-gets : (f : Parser → A) → Keeps P (gets f)
  Keeps-gets f = record { at = λ p h. h }

  pub Keeps-give_up : Keeps P (give_up {A = A})
  Keeps-give_up = record { at = λ p h. tt }

  pub Keeps-defined : (o : Option A) → Keeps P (defined o)
  Keeps-defined none = record { at = λ p h. tt }
  Keeps-defined (some x) = record { at = λ p h. h }

  pub Keeps-if : (b : Bool) (m n : Method A) → Keeps P m → Keeps P n → Keeps P (if b then m else n)
  Keeps-if true m n k l = k
  Keeps-if false m n k l = l

module _ {ℓ κ} {A : Type ℓ} {B : Type κ} {P : Parser → Type 0} where
  then-Left :
      (o : Outcome A) (f : A → Method B)
      → Left P o
      → ((x : A) → Keeps P (f x))
      → Left P (elim o as (λ _. Outcome B) [ ok x p ↦ f x p | err e p ↦ err e p | stuck ↦ stuck ])
  then-Left (ok x p) f h k = (k x).at p h
  then-Left (err e p) f h k = h
  then-Left stuck f h k = tt

  pub Keeps-bind :
      (m : Method A) (f : A → Method B) → Keeps P m → ((x : A) → Keeps P (f x)) → Keeps P (m >>= f)
  Keeps-bind m f k l = record { at = λ p h. then-Left (m p) f (k.at p h) l }

module _ {ℓ} {A : Type ℓ} {P : Parser → Type 0} where
  caught-Left :
      (o : Outcome A) (handler : Error → Method A)
      → Left P o
      → ((e : Error) → Keeps P (handler e))
      → Left P
          (elim o as (λ _. Outcome A) [ ok x p ↦ ok x p | err e p ↦ handler e p | stuck ↦ stuck ])
  caught-Left (ok x p) handler h k = h
  caught-Left (err e p) handler h k = (k e).at p h
  caught-Left stuck handler h k = tt

  pub Keeps-catch :
      (m : Method A) (handler : Error → Method A)
      → Keeps P m
      → ((e : Error) → Keeps P (handler e))
      → Keeps P (catch m handler)
  Keeps-catch m handler k l = record { at = λ p h. caught-Left (m p) handler (k.at p h) l }

-- Binds whose rest splits on the result.
module _ {ℓ κ} {A : Type ℓ} {B : Type κ} {P : Parser → Type 0} where
  pub Keeps-bind_option :
      (m : Method (Option A)) (f : Option A → Method B)
      → Keeps P m
      → Keeps P (f none)
      → ((x : A) → Keeps P (f (some x)))
      → Keeps P (m >>= f)
  Keeps-bind_option m f k l n = Keeps-bind m f k (Option-elim l n)
    where
      Option-elim :
          Keeps P (f none) → ((x : A) → Keeps P (f (some x))) → (o : Option A) → Keeps P (f o)
      Option-elim l n none = l
      Option-elim l n (some x) = n x

module _ {κ} {B : Type κ} {P : Parser → Type 0} where
  pub Keeps-bind_meaning :
      (m : Method (Option Meaning)) (f : Option Meaning → Method B)
      → Keeps P m
      → Keeps P (f none)
      → ((x : Macro) → Keeps P (f (some (a_macro x))))
      → ((n : ℕ) → Keeps P (f (some (an_element n))))
      → Keeps P (m >>= f)
  Keeps-bind_meaning m f k l x n = Keeps-bind_option m f k l (of_meaning x n)
    where
      of_meaning :
          ((x : Macro) → Keeps P (f (some (a_macro x))))
          → ((n : ℕ) → Keeps P (f (some (an_element n))))
          → (s : Meaning) → Keeps P (f (some s))
      of_meaning x n (a_macro u) = x u
      of_meaning x n (an_element u) = n u

  pub Keeps-bind_element :
      (m : Method Element) (f : Element → Method B)
      → Keeps P m
      → ((i : Initializer) → Keeps P (f (initializer i)))
      → ((l : Label) → Keeps P (f (label l)))
      → Keeps P (m >>= f)
  Keeps-bind_element m f k x n = Keeps-bind m f k (of_element x n)
    where
      of_element :
          ((i : Initializer) → Keeps P (f (initializer i)))
          → ((l : Label) → Keeps P (f (label l)))
          → (e : Element) → Keeps P (f e)
      of_element x n (initializer i) = x i
      of_element x n (label l) = n l

-- The program is closed.
abbrev pub Closed : Parser → Type 0
Closed p = IsClosed p.program

pub ruleset keeps_rules = (
  Keeps-pure, Keeps-gets, Keeps-give_up, Keeps-defined, Keeps-if, Keeps-bind_meaning,
  Keeps-bind_element, Keeps-bind_option, Keeps-bind,
)
