-- ===== src/Base/Text.antt =====
-- Text as its bytes: `emuString` and C strings.
use Prim.Native.Char.{code}
use Prim.Native.String.{String}
use Prim.Native.Nat.{ℕ}
use mathlib.Core.Path.{◌≡◌, refl}
use mathlib.Core.Logic.{◌↔◌, ◌≢◌}
use mathlib.Core.Bool.{Bool, true, false, ◌&&◌}
use mathlib.Core.List.{List, [], ◌∷◌, ◌++◌}
use native.Mathlib.Omega.{arith}
use emufxtool.Base.Tests.{ltb, ◌==◌, if◌then◌else◌}
use emufxtool.Base.Table.{Key}

abbrev pub Text : Type 0
Text = List ℕ

-- The bytes of a literal.
abbrev pub codes : String → Text
codes String.[] = []
codes (String.◌∷◌ c s) = code c ∷ codes s

abbrev pub text_eq : Text → Text → Bool
text_eq [] [] = true
text_eq [] (y ∷ ys) = false
text_eq (x ∷ xs) [] = false
text_eq (x ∷ xs) (y ∷ ys) = x == y && text_eq xs ys

-- `std::less` of strings: the order of dictionaries.
abbrev pub text_less : Text → Text → Bool
text_less xs [] = false
text_less [] (y ∷ ys) = true
text_less (x ∷ xs) (y ∷ ys) = if ltb x y then true else x == y && text_less xs ys

pub text_eq_refl : (xs : Text) → text_eq xs xs ≡ true
text_eq_refl [] = refl
text_eq_refl (x ∷ xs) = ground (arith, text_eq_refl xs)

text_eq_sound : (xs ys : Text) → text_eq xs ys ≡ true → xs ≡ ys
text_eq_sound [] [] h = refl
text_eq_sound [] (y ∷ ys) h = cc
text_eq_sound (x ∷ xs) [] h = cc
text_eq_sound (x ∷ xs) (y ∷ ys) h = ground (arith, text_eq_sound xs ys)

pub text_eq_iff : (xs ys : Text) → (text_eq xs ys ≡ true) ↔ (xs ≡ ys)
text_eq_iff xs ys = (text_eq_sound xs ys, λ e. rw e (text_eq_refl ys))

instance abbrev pub text_key : Key Text
text_key = record { beq = text_eq; less = text_less; beq_iff = text_eq_iff }

-- What a `char *` to these bytes shows: those before the first 0.
unfoldable pub c_string : Text → Text
c_string [] = []
c_string (c ∷ cs) = if c == 0 then [] else c ∷ c_string cs

abbrev pub IsCString : Text → Type 0
IsCString [] = Unit
IsCString (c ∷ cs) = (c ≢ 0) × IsCString cs

pub c_string_closed : (s : Text) → IsCString s → c_string (s ++ 0 ∷ []) ≡ s
unfolding c_string
c_string_closed [] h = refl
c_string_closed (c ∷ cs) h = ground (arith, c_string_closed cs h.1)

-- The test of `IsCString` on a constant.
abbrev pub is_c_string : Text → Bool
is_c_string [] = true
is_c_string (c ∷ cs) = if c == 0 then false else is_c_string cs

pub is_c_string-IsCString : (s : Text) → is_c_string s ≡ true → IsCString s
is_c_string-IsCString [] h = tt
is_c_string-IsCString (c ∷ cs) h = (ground (arith, h), is_c_string-IsCString cs (ground (arith, h)))

pub c_string_all : (s : Text) → IsCString s → c_string s ≡ s
unfolding c_string
c_string_all [] h = refl
c_string_all (c ∷ cs) h = ground (arith, c_string_all cs h.1)

pub IsCString-append : (s t : Text) → IsCString s → IsCString t → IsCString (s ++ t)
IsCString-append [] t h k = k
IsCString-append (c ∷ s) t h k = (h.0, IsCString-append s t h.1 k)
