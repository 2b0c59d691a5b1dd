-- ===== src/Patch/Hardware/Instructions.antt =====
-- The instructions that are given to the driver come back from it.
use emufxtool.Base.{
  ℕ, zero, suc, ◌+◌, ◌^◌, ◌<◌, ◌≤◌, ◌≡◌, refl, ap, ◌∙◌, true, false, Option, none, some, List, [],
  ◌∷◌, ◌++◌, ◌==◌, length, Bool-cases, Option-cases, inl, inr, get_or, arith,
}
use emufxtool.Base.Table.{Table, nat_key}
use emufxtool.Words.{u16, is_set}
use emufxtool.Dsp.{Dsp, Code64, init_defaults, split_instr}
use emufxtool.Dsp.Laws.{join_instr-split_instr}
use emufxtool.Flags.{v_linedata, v_lineaddr, v_gpr}
use Prim.Native.Nat.{bit_and}
use emufxtool.Image.Data.{Code, RegisterImage, Image}
use emufxtool.Image.Operations.{new_code}
use emufxtool.Driver.BitSets.{test_bit}
use emufxtool.Patch.Hardware.{
  FxCode, ninstr, ◌>>=◌, poke_register, poke_registers, peek_code, hw_set, hw_get,
}
use emufxtool.Patch.Hardware.Placing.{no_word, words_of, at, HasRoom, placed, poke_code-placed}

placed_before : (cs : List Code) (pc j : ℕ) (d : Option Code64) → j < pc → placed pc cs j d ≡ d
placed_before [] pc j d h = refl
placed_before (c ∷ cs) pc j d h =
    let apart : (pc == j) ≡ false = ground (arith, h) in
    rw apart (placed_before cs (pc + 1) j d (omega (arith, h)))

-- The instructions as they are taken apart and put together again.
abbrev repacked : ℕ → Dsp → List Code → List Code
repacked pc d [] = []
repacked pc d (c ∷ cs) = new_code (u16 pc) (split_instr d (words_of c)) d ∷ repacked (pc + 1) d cs

peek_code-none :
    (rounds i : ℕ) (d : Dsp) (code : FxCode)
    → ((j : ℕ) → i ≤ j → at code j ≡ none)
    → peek_code rounds i d code ≡ []
unfolding peek_code
peek_code-none zero i d code h = refl
peek_code-none (suc rounds) i d code h = elim (Bool-cases (test_bit code.code_valid i)) [
  | inl valid ↦ absurd (cc (rw valid at (h i (omega arith))))
  | inr empty ↦ rw empty (peek_code-none rounds (i + 1) d code (λ j k. h j (omega (arith, k))))
]

peek_code-repacked :
    (rounds : ℕ) (cs : List Code) (pc : ℕ) (d : Dsp) (code : FxCode)
    → ((j : ℕ) → pc ≤ j → at code j ≡ placed pc cs j none)
    → length cs ≤ rounds
    → peek_code rounds pc d code ≡ repacked pc d cs
unfolding peek_code
peek_code-repacked rounds [] pc d code h k = peek_code-none rounds pc d code h
peek_code-repacked zero (c ∷ cs) pc d code h k = absurd (omega (arith, k))
peek_code-repacked (suc rounds) (c ∷ cs) pc d code h k =
    let here : (pc == pc) ≡ true = ground arith in
    let known : at code pc ≡ some (words_of c) =
      h pc (omega arith)
      ∙ rw here (placed_before cs (pc + 1) pc (some (words_of c)) (omega arith)) in
    let later : (j : ℕ) → pc + 1 ≤ j → at code j ≡ placed (pc + 1) cs j none = λ j l.
      let apart : (pc == j) ≡ false = ground (arith, l) in rw apart at (h j (omega (arith, l))) in
    elim (Bool-cases (test_bit code.code_valid pc)) [
      | inl valid ↦
          let found : some (get_or code.code pc no_word) ≡ some (words_of c) = rw valid at known in
          let word : get_or code.code pc no_word ≡ words_of c = cc in
          rw (valid, word, peek_code-repacked rounds cs (pc + 1) d code later (omega (arith, k)))
            refl
      | inr empty ↦ absurd (cc (rw empty at known))
    ]

-- Instructions in the words of the default geometry, numbered from `pc` on.
abbrev pub AreNumbered : ℕ → List Code → Type 0
AreNumbered pc [] = Unit
AreNumbered pc (c ∷ cs) = (c.pc ≡ pc) × (c.hi < 2 ^ 24) × (c.lo < 2 ^ 20) × AreNumbered (pc + 1) cs

repacked_same :
    (cs : List Code) (pc : ℕ)
    → AreNumbered pc cs
    → pc + length cs < 2 ^ 16
    → repacked pc init_defaults cs ≡ cs
unfolding new_code
repacked_same [] pc k h = refl
repacked_same (c ∷ cs) pc (number, high, low, k) h =
    let number' : u16 pc ≡ c.pc = omega (arith, h, number) in
    rw
      (
        join_instr-split_instr (words_of c) high low,
        number',
        repacked_same cs (pc + 1) k (omega (arith, h)),
      )
      refl

read_back :
    (rounds : ℕ) (cs : List Code) (d : Dsp) (code : FxCode)
    → d ≡ init_defaults
    → length cs ≤ rounds
    → AreNumbered 0 cs
    → length cs < 2 ^ 16
    → ((j : ℕ) → at code j ≡ placed 0 cs j none)
    → peek_code rounds 0 d code ≡ cs
read_back rounds cs d code geometry few numbered short all =
    peek_code-repacked rounds cs 0 d code (λ j h. all j) few
    ∙ (ap (λ e. repacked 0 e cs) geometry ∙ repacked_same cs 0 numbered (omega (arith, short)))

-- The registers are put elsewhere.
abbrev KeepsCode : FxCode → Option FxCode → Type 0
KeepsCode code none = Unit
KeepsCode code (some code') = (code'.code ≡ code.code) × (code'.code_valid ≡ code.code_valid)

two_writes-KeepsCode :
    (code : FxCode) (m n : Option (List ℕ)) (f : List ℕ → List ℕ → FxCode)
    → ((v w : List ℕ) → KeepsCode code (some (f v w)))
    → KeepsCode code (m >>= λ v. n >>= λ w. some (f v w))
two_writes-KeepsCode code none n f k = tt
two_writes-KeepsCode code (some v) none f k = tt
two_writes-KeepsCode code (some v) (some w) f k = k v w

poke_register-KeepsCode :
    (d : Dsp) (addr : ℕ) (r : RegisterImage) (code : FxCode)
    → KeepsCode code (poke_register d addr r code)
unfolding poke_register
poke_register-KeepsCode d addr r code = elim (Bool-cases (is_set (bit_and r.flags v_linedata))) [
  | inl line ↦ rw line (two_writes-KeepsCode code _ _ _ (λ v w. (refl, refl)))
  | inr other ↦ elim (Bool-cases (is_set (bit_and r.flags v_lineaddr))) [
    | inl address ↦ rw (other, address) (two_writes-KeepsCode code _ _ _ (λ v w. (refl, refl)))
    | inr neither ↦ elim (Bool-cases (is_set (bit_and r.flags v_gpr))) [
      | inl gpr ↦ rw (other, neither, gpr) (two_writes-KeepsCode code _ _ _ (λ v w. (refl, refl)))
      | inr none_set ↦ rw (other, neither, none_set) (refl, refl)
    ]
  ]
]

KeepsCode-trans :
    (a b : FxCode) (o : Option FxCode) → KeepsCode a (some b) → KeepsCode b o → KeepsCode a o
KeepsCode-trans a b none h k = tt
KeepsCode-trans a b (some c) h k = (k.0 ∙ h.0, k.1 ∙ h.1)

poke_registers-KeepsCode :
    (d : Dsp) (rs : Table ℕ RegisterImage) (code : FxCode)
    → KeepsCode code (poke_registers d rs code)
unfolding poke_registers
poke_registers-KeepsCode d [] code = (refl, refl)
poke_registers-KeepsCode d ((addr, r) ∷ rs) code =
    elim (Option-cases (poke_register d addr r code)) [
      | inl out ↦ rw (out, ◌>>=◌) tt
      | inr (code1, done) ↦
          let same : KeepsCode code (some code1) =
            rw done at (poke_register-KeepsCode d addr r code) in
          rw (done, ◌>>=◌) (KeepsCode-trans code code1 _ same (poke_registers-KeepsCode d rs code1))
    ]

-- An image of numbered instructions in the words of the default geometry, and a cleared structure
-- with room for 512 of them: where all registers find their place in the structure, `hw_set`
-- returns one, and `hw_get` of it appends these instructions to those of its image.
pub hw_get-hw_set :
    (img blank : Image) (cleared loaded : FxCode)
    → img.dsp ≡ init_defaults
    → blank.dsp ≡ init_defaults
    → AreNumbered 0 img.code
    → length img.code ≤ ninstr
    → HasRoom ninstr cleared
    → ((j : ℕ) → test_bit cleared.code_valid j ≡ false)
    → poke_registers img.dsp img.registers cleared ≡ some loaded
    → (fx : FxCode) × (hw_set img cleared ≡ some fx)
      × ((hw_get fx blank).code ≡ blank.code ++ img.code)
unfolding hw_set hw_get
hw_get-hw_set img blank cleared loaded geometry geometry' numbered few room empty placed_all =
    let (same_code, same_valid) =
      rw placed_all at (poke_registers-KeepsCode img.dsp img.registers cleared) in
    let room' : HasRoom ninstr loaded = record {
      words = rw same_valid room.words;
      bits = rw same_valid room.bits;
      places = rw same_code room.places;
    } in
    let nothing : (j : ℕ) → at loaded j ≡ none = λ j. rw (same_valid, empty j) refl in
    let (fx, poked, all) = poke_code-placed ninstr img.code 0 loaded room' (omega (arith, few)) in
    (
      fx,
      rw (placed_all, ◌>>=◌) poked,
      ap (λ xs. blank.code ++ xs)
          (read_back ninstr img.code blank.dsp fx geometry' few numbered (omega (arith, few))
            (λ j. all j ∙ ap (placed 0 img.code j) (nothing j))),
    )
