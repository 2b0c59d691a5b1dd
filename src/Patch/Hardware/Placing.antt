-- ===== src/Patch/Hardware/Placing.antt =====
-- Where the instructions stand that are given to the driver.
use emufxtool.Base.{
  ℕ, zero, suc, ◌+◌, ◌*◌, ◌/◌, ◌<◌, ◌≤◌, ◌≡◌, refl, ap, ◌∙◌, true, Option, none, some, List, [],
  ◌∷◌, ◌==◌, ltb, length, length-set, Bool-cases, inl, inr, get_or, set, arith, if◌then◌else◌,
}
use emufxtool.Base.Table.{nat_key}
use emufxtool.Words.Algebra.{IsWord, AllWords, get_or-IsWord, or_small}
use emufxtool.Dsp.{Code64}
use emufxtool.Image.Data.{Code}
use emufxtool.Driver.BitSets.{test_bit, set_bit}
use emufxtool.Driver.BitSetLaws.{test_bit-set_bit}
use emufxtool.Patch.Hardware.{FxCode, poke_code}

abbrev pub no_word : Code64
no_word = record { high = 0; low = 0 }

abbrev pub words_of : Code → Code64
words_of c = record { high = c.hi; low = c.lo }

-- An instruction at a place of the arrays, or none.
abbrev pub at : FxCode → ℕ → Option Code64
at code i = if test_bit code.code_valid i then some (get_or code.code i no_word) else none

-- The arrays have room for `n` instructions.
pub record HasRoom (n : ℕ) (code : FxCode) : Type 0 where
  pub words : AllWords code.code_valid
  pub bits : n ≤ 32 * length code.code_valid
  pub places : n ≤ length code.code

-- What stands at the place `j` when instructions are put from `pc` on, before which it was `d`.
abbrev pub placed : ℕ → List Code → ℕ → Option Code64 → Option Code64
placed pc [] j d = d
placed pc (c ∷ cs) j d = placed (pc + 1) cs j (if pc == j then some (words_of c) else d)

AllWords-set : (v : List ℕ) (i x : ℕ) → AllWords v → IsWord x → AllWords (set v i x)
AllWords-set [] i x h k = tt
AllWords-set (y ∷ v) zero x h k = (k, h.1)
AllWords-set (y ∷ v) (suc i) x h k = (h.0, AllWords-set v i x h.1 k)

get_or-set {ℓ} :
    {A : Type ℓ} (xs : List A) (i j : ℕ) (x d : A)
    → i < length xs
    → get_or (set xs i x) j d ≡ (if i == j then x else get_or xs j d)
get_or-set [] i j x d h = absurd (omega (arith, h))
get_or-set (y ∷ xs) zero zero x d h = refl
get_or-set (y ∷ xs) zero (suc j) x d h = ground arith
get_or-set (y ∷ xs) (suc i) zero x d h = ground arith
get_or-set (y ∷ xs) (suc i) (suc j) x d h = ground (arith, get_or-set xs i j x d (omega (arith, h)))

-- One instruction more.
abbrev put_code : ℕ → Code → FxCode → FxCode
put_code pc c code = record code {
  code_valid = set_bit code.code_valid pc;
  code = set code.code pc (words_of c);
}

put_code-at :
    (n pc : ℕ) (c : Code) (code : FxCode) (j : ℕ)
    → HasRoom n code
    → pc < n
    → at (put_code pc c code) j ≡ (if pc == j then some (words_of c) else at code j)
put_code-at n pc c code j room h =
    let bits = test_bit-set_bit code.code_valid pc j room.words (omega (arith, h, room.bits)) in
    let entry = get_or-set code.code pc j (words_of c) no_word (omega (arith, h, room.places)) in
    elim (Bool-cases (pc == j)) [
      | inl same ↦ rw (bits, same, entry, same) refl
      | inr other ↦ rw (bits, other, entry, other) refl
    ]

poke_code-step :
    (n pc : ℕ) (c : Code) (cs : List Code) (code : FxCode)
    → HasRoom n code
    → pc < n
    → (poke_code pc (c ∷ cs) code ≡ poke_code (pc + 1) cs (put_code pc c code))
      × HasRoom n (put_code pc c code)
      × ((j : ℕ) → at (put_code pc c code) j ≡ (if pc == j then some (words_of c) else at code j))
unfolding poke_code set_bit
poke_code-step n pc c cs code room h =
    let marked : ltb pc (32 * length code.code_valid) ≡ true = ground (arith, h, room.bits) in
    let fits : ltb pc (length code.code) ≡ true = ground (arith, h, room.places) in
    (
      rw (marked, fits) refl,
      record {
        words =
            AllWords-set code.code_valid _ _ room.words
              (or_small 32 _ _ (get_or-IsWord code.code_valid (pc / 32) room.words) (omega arith));
        bits = rw (length-set code.code_valid _ _) room.bits;
        places = rw (length-set code.code pc (words_of c)) room.places;
      },
      λ j. put_code-at n pc c code j room h,
    )

pub poke_code-placed :
    (n : ℕ) (cs : List Code) (pc : ℕ) (code : FxCode)
    → HasRoom n code
    → pc + length cs ≤ n
    → (code' : FxCode) × (poke_code pc cs code ≡ some code')
      × ((j : ℕ) → at code' j ≡ placed pc cs j (at code j))
unfolding poke_code
poke_code-placed n [] pc code room h = (code, refl, λ j. refl)
poke_code-placed n (c ∷ cs) pc code room h =
    let (step, room', one) = poke_code-step n pc c cs code room (omega (arith, h)) in
    let (code', rest, all) =
      poke_code-placed n cs (pc + 1) (put_code pc c code) room' (omega (arith, h)) in
    (code', step ∙ rest, λ j. all j ∙ ap (placed (pc + 1) cs j) (one j))
