-- ===== src/Words/Algebra.antt =====
-- Laws of `&`, `|` and `~` on words of `w` bits, by induction on the bits.
use Prim.Native.Nat.{bit_and, bit_or, min, max}
use native.Mathlib.Nat.{pow-suc, one-le-pow}
use emufxtool.Base.{ℕ, zero, suc, ◌-◌, ◌/◌, ◌%◌, ◌^◌, ◌<◌, ◌≡◌, arith, List, [], ◌∷◌, get_or}
use emufxtool.Words.Bits.{and_digit, or_digit, zero-and}

halve : (w a : ℕ) → a < 2 ^ suc w → a / 2 < 2 ^ w
halve w a h = omega (arith, h, pow-suc 2 w)

pub or_small : (w a b : ℕ) → a < 2 ^ w → b < 2 ^ w → bit_or a b < 2 ^ w
or_small zero a b ha hb = ground (arith, ha, hb)
or_small (suc w) a b ha hb =
    omega
      (arith, or_digit a b, or_small w (a / 2) (b / 2) (halve w a ha) (halve w b hb), pow-suc 2 w)

pub and_small : (w a b : ℕ) → a < 2 ^ w → bit_and a b < 2 ^ w
and_small zero a b ha = ground (arith, ha, zero-and b)
and_small (suc w) a b ha =
    omega (arith, and_digit a b, and_small w (a / 2) (b / 2) (halve w a ha), pow-suc 2 w)

pub and_assoc : (w a b c : ℕ) → a < 2 ^ w → bit_and (bit_and a b) c ≡ bit_and a (bit_and b c)
and_assoc zero a b c ha = ground (arith, ha, zero-and b, zero-and c, zero-and (bit_and b c))
and_assoc (suc w) a b c ha = ground (
  arith,
  and_digit a b,
  and_digit (bit_and a b) c,
  and_digit b c,
  and_digit a (bit_and b c),
  and_assoc w (a / 2) (b / 2) (c / 2) (halve w a ha),
)

pub or_and_absorb : (w a b : ℕ) → a < 2 ^ w → b < 2 ^ w → bit_and (bit_or a b) b ≡ b
or_and_absorb zero a b ha hb = ground (arith, ha, hb)
or_and_absorb (suc w) a b ha hb = ground (
  arith,
  or_digit a b,
  and_digit (bit_or a b) b,
  or_and_absorb w (a / 2) (b / 2) (halve w a ha) (halve w b hb),
)

pub and_or_distribute :
    (w a b c : ℕ)
    → a < 2 ^ w
    → b < 2 ^ w
    → bit_and (bit_or a b) c ≡ bit_or (bit_and a c) (bit_and b c)
and_or_distribute zero a b c ha hb = ground (arith, ha, hb, zero-and c)
and_or_distribute (suc w) a b c ha hb = ground (
  arith,
  or_digit a b,
  and_digit (bit_or a b) c,
  and_digit a c,
  and_digit b c,
  or_digit (bit_and a c) (bit_and b c),
  and_or_distribute w (a / 2) (b / 2) (c / 2) (halve w a ha) (halve w b hb),
)

-- The low `w` bits of `~m`.
abbrev pub negate : ℕ → ℕ → ℕ
negate w m = 2 ^ w - 1 - m

-- The bits of `v` under the mask `m`, the others of `f`.
abbrev pub merge : ℕ → ℕ → ℕ → ℕ → ℕ
merge w f m v = bit_or (bit_and f (negate w m)) (bit_and v m)

negate_halves :
    (w m : ℕ)
    → m < 2 ^ suc w
    → (negate (suc w) m / 2 ≡ negate w (m / 2)) × (negate (suc w) m % 2 ≡ 1 - m % 2)
negate_halves w m h =
    (omega (arith, h, pow-suc 2 w, one-le-pow w 2), omega (arith, h, pow-suc 2 w, one-le-pow w 2))

merge_halves :
    (w f m v : ℕ)
    → m < 2 ^ suc w
    → (merge (suc w) f m v / 2 ≡ merge w (f / 2) (m / 2) (v / 2))
      × (merge (suc w) f m v % 2 ≡ max (min (f % 2) (1 - m % 2)) (min (v % 2) (m % 2)))
merge_halves w f m v hm =
    let neg = negate_halves w m hm in
    let all = or_digit (bit_and f (negate (suc w) m)) (bit_and v m) in
    let left = and_digit f (negate (suc w) m) in
    let right = and_digit v m in ground (arith, neg, all, left, right)

merge_small : (w f m v : ℕ) → f < 2 ^ w → m < 2 ^ w → v < 2 ^ w → merge w f m v < 2 ^ w
merge_small zero f m v hf hm hv = ground (arith, hf, hm, hv)
merge_small (suc w) f m v hf hm hv = omega (
  arith,
  merge_halves w f m v hm,
  merge_small w (f / 2) (m / 2) (v / 2) (halve w f hf) (halve w m hm) (halve w v hv),
  pow-suc 2 w,
)

pub merge_masked :
    (w f m v : ℕ) → f < 2 ^ w → m < 2 ^ w → v < 2 ^ w → bit_and (merge w f m v) m ≡ bit_and v m
merge_masked zero f m v hf hm hv = ground (arith, hf, hm, hv)
merge_masked (suc w) f m v hf hm hv = ground (
  arith,
  merge_halves w f m v hm,
  and_digit (merge (suc w) f m v) m,
  and_digit v m,
  merge_masked w (f / 2) (m / 2) (v / 2) (halve w f hf) (halve w m hm) (halve w v hv),
)

pub merge_kept :
    (w f m v : ℕ)
    → f < 2 ^ w
    → m < 2 ^ w
    → v < 2 ^ w
    → bit_and (merge w f m v) (negate w m) ≡ bit_and f (negate w m)
merge_kept zero f m v hf hm hv = ground (arith, hf, hm, hv)
merge_kept (suc w) f m v hf hm hv = ground (
  arith,
  merge_halves w f m v hm,
  negate_halves w m hm,
  and_digit (merge (suc w) f m v) (negate (suc w) m),
  and_digit f (negate (suc w) m),
  merge_kept w (f / 2) (m / 2) (v / 2) (halve w f hf) (halve w m hm) (halve w v hv),
)

abbrev pub IsWord : ℕ → Type 0
IsWord v = v < 2 ^ 32

abbrev pub AllWords : List ℕ → Type 0
AllWords [] = Unit
AllWords (v ∷ vs) = IsWord v × AllWords vs

pub get_or-IsWord : (vs : List ℕ) (n : ℕ) → AllWords vs → IsWord (get_or vs n 0)
get_or-IsWord [] n h = omega arith
get_or-IsWord (v ∷ vs) zero h = h.0
get_or-IsWord (v ∷ vs) (suc n) h = get_or-IsWord vs n h.1
