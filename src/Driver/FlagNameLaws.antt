-- ===== src/Driver/FlagNameLaws.antt =====
-- `flagsToString` lists the names of the flags that are set.
use Prim.Native.Nat.{bit_and}
use mathlib.Core.List.{append_assoc, append-nil}
use emufxtool.Base.{
  ℕ, ◌/◌, ◌%◌, ◌≡◌, refl, ap, sym, ◌∙◌, true, false, List, [], ◌∷◌, ◌++◌, ◌==◌, arith,
  if◌then◌else◌, Bool-cases, inl, inr,
}
use emufxtool.Base.Text.{Text}
use emufxtool.Words.{is_set}
use emufxtool.Words.Bits.{and_mask}
use emufxtool.Driver.FlagNames.{flags_loop, flags_to_string}

-- The names of the bits that are set, the lowest first.
abbrev pub set_names : List Text → ℕ → List Text
set_names [] flags = []
set_names (name ∷ names) flags =
    let rest = set_names names (flags / 2) in if flags % 2 == 1 then name ∷ rest else rest

abbrev pub barred : List Text → Text
barred [] = []
barred (name ∷ names) = 0x7c ∷ (name ++ barred names)

-- With a bar between each two.
abbrev pub join_bar : List Text → Text
join_bar [] = []
join_bar (name ∷ names) = name ++ barred names

set_names-zero : (names : List Text) → set_names names 0 ≡ []
set_names-zero [] = refl
set_names-zero (name ∷ names) = set_names-zero names

low_bit : (flags : ℕ) → is_set (bit_and flags 1) ≡ (flags % 2 == 1)
low_bit flags = ground (arith, and_mask 1 flags)

flags_loop-barred :
    (names : List Text) (flags : ℕ) (s : Text)
    → flags_loop names flags false s ≡ s ++ barred (set_names names flags)
unfolding flags_loop
flags_loop-barred [] flags s = rw append-nil
flags_loop-barred (name ∷ names) flags s = elim (Bool-cases (flags == 0)) [
  | inl nothing ↦
      let e : flags ≡ 0 = ground (arith, nothing) in
      let none_set : set_names (name ∷ names) flags ≡ [] = rw e (set_names-zero names) in
      rw nothing (sym (ap (λ t. s ++ barred t) none_set ∙ append-nil s))
  | inr more ↦ elim (Bool-cases (flags % 2 == 1)) [
    | inl here ↦
        rw (more, low_bit flags, here)
          (flags_loop-barred names (flags / 2) ((s ++ 0x7c ∷ []) ++ name)
            ∙ (append_assoc (s ++ 0x7c ∷ []) name _ ∙ append_assoc s (0x7c ∷ []) _))
    | inr not_here ↦ rw (more, low_bit flags, not_here) (flags_loop-barred names (flags / 2) s)
  ]
]

flags_loop-join_bar :
    (names : List Text) (flags : ℕ)
    → flags_loop names flags true [] ≡ join_bar (set_names names flags)
unfolding flags_loop
flags_loop-join_bar [] flags = refl
flags_loop-join_bar (name ∷ names) flags = elim (Bool-cases (flags == 0)) [
  | inl nothing ↦
      let e : flags ≡ 0 = ground (arith, nothing) in
      let none_set : set_names (name ∷ names) flags ≡ [] = rw e (set_names-zero names) in
      rw nothing (sym (ap join_bar none_set))
  | inr more ↦ elim (Bool-cases (flags % 2 == 1)) [
    | inl here ↦ rw (more, low_bit flags, here) (flags_loop-barred names (flags / 2) name)
    | inr not_here ↦ rw (more, low_bit flags, not_here) (flags_loop-join_bar names (flags / 2))
  ]
]

-- `flags_to_string` is the names of the flags that are set, the lowest first, with a bar between
-- each two; a flag without a name is left out.
pub flags_to_string-join_bar :
    (flags : ℕ) (names : List Text) → flags_to_string flags names ≡ join_bar (set_names names flags)
unfolding flags_to_string
flags_to_string-join_bar flags names = flags_loop-join_bar names flags
