-- ===== src/Driver/BitSetLaws.antt =====
-- A bit that is set is in the set, and no other bit changes.
use Prim.Native.Nat.{bit_and, bit_or}
use native.Mathlib.Nat.{pow-suc, one-le-pow, pow-le-pow_right}
use emufxtool.Base.{
  ℕ, zero, suc, ◌/◌, ◌%◌, ◌^◌, ◌<◌, ◌≡◌, ◌≢◌, refl, ap, sym, true, false, List, [], ◌∷◌, ◌||◌, ◌==◌,
  length, get_or, set, arith, if◌then◌else◌, Bool-cases, inl, inr,
}
use emufxtool.Words.{◌<<<◌, is_set}
use emufxtool.Words.Bits.{and_digit, and-zero, zero-and, or-zero}
use emufxtool.Words.Algebra.{IsWord, AllWords, get_or-IsWord, and_or_distribute, or_and_absorb}
use emufxtool.Driver.BitSets.{test_bit, set_bit}

pow_and_pow : (b c : ℕ) → b ≢ c → bit_and (2 ^ b) (2 ^ c) ≡ 0
pow_and_pow zero zero ne = absurd (ne refl)
pow_and_pow zero (suc c) ne = ground (arith, and_digit 1 (2 ^ suc c), pow-suc 2 c, zero-and (2 ^ c))
pow_and_pow (suc b) zero ne = ground (arith, and_digit (2 ^ suc b) 1, pow-suc 2 b, and-zero (2 ^ b))
pow_and_pow (suc b) (suc c) ne = ground (
  arith,
  and_digit (2 ^ suc b) (2 ^ suc c),
  pow-suc 2 b,
  pow-suc 2 c,
  pow_and_pow b c (λ e. ne (ap suc e)),
)

get_or-set :
    (v : List ℕ) (i j x : ℕ)
    → i < length v
    → get_or (set v i x) j 0 ≡ (if i == j then x else get_or v j 0)
get_or-set [] i j x h = absurd (omega (arith, h))
get_or-set (y ∷ v) zero zero x h = refl
get_or-set (y ∷ v) zero (suc j) x h = ground arith
get_or-set (y ∷ v) (suc i) zero x h = ground arith
get_or-set (y ∷ v) (suc i) (suc j) x h = ground (arith, get_or-set v i j x (omega (arith, h)))

one_shifted : (k : ℕ) → k < 32 → 1 <<< k ≡ 2 ^ k
one_shifted k h =
    omega (arith, h, pow-le-pow_right {n = 2} (omega arith) {i = k} {j = 31} (omega (arith, h)))

bit_small : (k : ℕ) → k < 32 → 2 ^ k < 2 ^ 32
bit_small k h =
    omega (arith, h, pow-le-pow_right {n = 2} (omega arith) {i = k} {j = 31} (omega (arith, h)))

-- Two bits of one word.
same_word :
    (w b c : ℕ)
    → IsWord w
    → b < 32
    → c < 32
    → is_set (bit_and (bit_or w (2 ^ b)) (2 ^ c)) ≡ (b == c || is_set (bit_and w (2 ^ c)))
same_word w b c hw hb hc = elim (Bool-cases (b == c)) [
  | inl same ↦
      let e : b ≡ c = ground (arith, same) in
      let set : is_set (2 ^ c) ≡ true = ground (arith, one-le-pow c 2) in
      rw (same, e, or_and_absorb 32 w (2 ^ c) hw (bit_small c hc), set)
  | inr differs ↦
      let ne : b ≢ c = ground (arith, differs) in
      rw (
        and_or_distribute 32 w (2 ^ b) (2 ^ c) hw (bit_small b hb),
        pow_and_pow b c ne,
        or-zero (bit_and w (2 ^ c)),
        differs,
      )
]

-- On an array of words that the index lies in, setting a bit sets it and changes no other bit.
pub test_bit-set_bit :
    (v : List ℕ) (i j : ℕ)
    → AllWords v
    → i / 32 < length v
    → test_bit (set_bit v i) j ≡ (i == j || test_bit v j)
unfolding test_bit set_bit
test_bit-set_bit v i j words inside =
    let word = get_or v (i / 32) 0 in
    let si = one_shifted (i % 32) (omega arith) in
    let sj = one_shifted (j % 32) (omega arith) in
    let there = get_or-set v (i / 32) (j / 32) (bit_or word (1 <<< (i % 32))) inside in
    elim (Bool-cases (i / 32 == j / 32)) [
      | inl same ↦
          let bits =
            same_word word (i % 32) (j % 32) (get_or-IsWord v (i / 32) words) (omega arith)
              (omega arith) in
          let e : i / 32 ≡ j / 32 = ground (arith, same) in
          let bit : (i == j) ≡ (i % 32 == j % 32) = ground (arith, e) in
          let here : get_or v (j / 32) 0 ≡ word = ap (λ t. get_or v t 0) (sym e) in
          rw (there, same, here, si, sj, bit) bits
      | inr differs ↦
          let apart : (i == j) ≡ false = ground (arith, differs) in rw (there, differs, apart)
    ]
