-- ===== src/Words/Bits.antt =====
-- `&` and `|` of numbers that are split at a bit: the high parts and the low parts do not mix.
-- From this every mask, cleared field and joined field of the program is arithmetic.
use Prim.Native.Nat.{min, max, digits, bitwise, bit_and, bit_or, bit_and-bitwise, bit_or-bitwise}
use native.Mathlib.Nat.{pow-suc, one-le-pow, le_refl}
use emufxtool.Base.{ℕ, zero, suc, ◌+◌, ◌-◌, ◌*◌, ◌/◌, ◌%◌, ◌^◌, ◌≤◌, ◌<◌, ◌≡◌, refl, ap, arith}

-- `bitwise` runs `digits` with its first argument as the fuel; any fuel above that will do.
module _ (alone : ℕ → ℕ) (both : ℕ → ℕ → ℕ) where
  more_fuel : (n m a b : ℕ) → a ≤ n → a ≤ m → digits alone both n a b ≡ digits alone both m a b
  more_fuel n m zero b h k = fuel_at_zero n m b
    where
      fuel_at_zero : (n m b : ℕ) → digits alone both n zero b ≡ digits alone both m zero b
      fuel_at_zero zero zero b = refl
      fuel_at_zero zero (suc m) b = refl
      fuel_at_zero (suc n) zero b = refl
      fuel_at_zero (suc n) (suc m) b = refl
  more_fuel zero m (suc a) b h k = absurd (omega arith)
  more_fuel (suc n) zero (suc a) b h k = absurd (omega arith)
  more_fuel (suc n) (suc m) (suc a) b h k =
      rw (more_fuel n m (suc a / 2) (b / 2) (omega arith) (omega arith))

  lowest_digit :
      (a b : ℕ)
      → bitwise alone both (suc a) b
        ≡ bitwise alone both (suc a / 2) (b / 2) * 2 + both (suc a % 2) (b % 2)
  lowest_digit a b =
      omega (arith, more_fuel a (suc a / 2) (suc a / 2) (b / 2) (omega arith) (le_refl _))

pub and_digit : (a b : ℕ) → bit_and a b ≡ bit_and (a / 2) (b / 2) * 2 + min (a % 2) (b % 2)
and_digit zero b = simp bit_and-bitwise (omega arith)
and_digit (suc a) b = simp bit_and-bitwise (lowest_digit (λ y. 0) min a b)

pub or_digit : (a b : ℕ) → bit_or a b ≡ bit_or (a / 2) (b / 2) * 2 + max (a % 2) (b % 2)
or_digit zero b = simp bit_or-bitwise (omega arith)
or_digit (suc a) b = simp bit_or-bitwise (lowest_digit (λ y. y) max a b)

double : (q r k : ℕ) → (q * 2 ^ suc k + r) / 2 ≡ q * 2 ^ k + r / 2
double q r k = omega (arith, ap (λ (t : ℕ). q * t) (pow-suc 2 k))

double_low : (q r k : ℕ) → (q * 2 ^ suc k + r) % 2 ≡ r % 2
double_low q r k = omega (arith, ap (λ (t : ℕ). q * t) (pow-suc 2 k))

-- The bits above `k` and those below go their own ways.
pub and_split :
    (k q p r s : ℕ)
    → r < 2 ^ k
    → s < 2 ^ k
    → bit_and (q * 2 ^ k + r) (p * 2 ^ k + s) ≡ bit_and q p * 2 ^ k + bit_and r s
and_split zero q p r s hr hs = ground arith
and_split (suc k) q p r s hr hs = ground (
  arith,
  and_digit (q * 2 ^ suc k + r) (p * 2 ^ suc k + s),
  and_digit r s,
  double q r k,
  double p s k,
  double_low q r k,
  double_low p s k,
  pow-suc 2 k,
  ap (λ (t : ℕ). bit_and q p * t) (pow-suc 2 k),
  and_split k q p (r / 2) (s / 2) (omega (arith, pow-suc 2 k)) (omega (arith, pow-suc 2 k)),
)

pub or_split :
    (k q p r s : ℕ)
    → r < 2 ^ k
    → s < 2 ^ k
    → bit_or (q * 2 ^ k + r) (p * 2 ^ k + s) ≡ bit_or q p * 2 ^ k + bit_or r s
or_split zero q p r s hr hs = ground arith
or_split (suc k) q p r s hr hs = ground (
  arith,
  or_digit (q * 2 ^ suc k + r) (p * 2 ^ suc k + s),
  or_digit r s,
  double q r k,
  double p s k,
  double_low q r k,
  double_low p s k,
  pow-suc 2 k,
  ap (λ (t : ℕ). bit_or q p * t) (pow-suc 2 k),
  or_split k q p (r / 2) (s / 2) (omega (arith, pow-suc 2 k)) (omega (arith, pow-suc 2 k)),
)

-- Induction on a bound of `a`.
bounded-and-zero : (n a : ℕ) → a ≤ n → bit_and a 0 ≡ 0
bounded-and-zero n zero h = refl
bounded-and-zero zero (suc a) h = absurd (omega arith)
bounded-and-zero (suc n) (suc a) h =
    omega (arith, and_digit (suc a) 0, bounded-and-zero n (suc a / 2) (omega arith))

bounded-or-zero : (n a : ℕ) → a ≤ n → bit_or a 0 ≡ a
bounded-or-zero n zero h = refl
bounded-or-zero zero (suc a) h = absurd (omega arith)
bounded-or-zero (suc n) (suc a) h =
    omega (arith, or_digit (suc a) 0, bounded-or-zero n (suc a / 2) (omega arith))

pub and-zero : (a : ℕ) → bit_and a 0 ≡ 0
and-zero a = bounded-and-zero a a (le_refl a)

pub or-zero : (a : ℕ) → bit_or a 0 ≡ a
or-zero a = bounded-or-zero a a (le_refl a)

pub zero-or : (a : ℕ) → bit_or 0 a ≡ a
zero-or a = bit_or-bitwise 0 a

pub zero-and : (a : ℕ) → bit_and 0 a ≡ 0
zero-and a = bit_and-bitwise 0 a

-- A mask of `k` ones keeps a number of `k` bits.
pub and_ones : (k a : ℕ) → a < 2 ^ k → bit_and a (2 ^ k - 1) ≡ a
and_ones zero a h = rw and-zero (omega arith)
and_ones (suc k) a h = ground (
  arith,
  and_digit a (2 ^ suc k - 1),
  pow-suc 2 k,
  one-le-pow k 2,
  and_ones k (a / 2) (omega (arith, pow-suc 2 k)),
)

-- `a & (2^k - 1)` is the remainder by `2^k`.
pub and_mask : (k a : ℕ) → bit_and a (2 ^ k - 1) ≡ a % 2 ^ k
and_mask k a = ground (
  arith,
  one-le-pow k 2,
  and_split k (a / 2 ^ k) 0 (a % 2 ^ k) (2 ^ k - 1),
  and-zero (a / 2 ^ k),
  and_ones k (a % 2 ^ k),
)

-- Writing a field: `s` bits below it, `n` bits of its own, `t` bits above.
pub field_write :
    (s n t q f r v : ℕ)
    → q < 2 ^ t
    → f < 2 ^ n
    → r < 2 ^ s
    → v < 2 ^ n
    → bit_or
        (bit_and ((q * 2 ^ n + f) * 2 ^ s + r) ((2 ^ t - 1) * 2 ^ n * 2 ^ s + (2 ^ s - 1)))
        (v * 2 ^ s)
      ≡ (q * 2 ^ n + v) * 2 ^ s + r
field_write s n t q f r v hq hf hr hv = ground (
  arith,
  one-le-pow s 2,
  one-le-pow n 2,
  and_split s (q * 2 ^ n + f) ((2 ^ t - 1) * 2 ^ n) r (2 ^ s - 1),
  and_split n q (2 ^ t - 1) f 0,
  and-zero f,
  and_ones s r,
  and_ones t q,
  or_split s (q * 2 ^ n) v r 0,
  or_split n q 0 0 v,
  or-zero q,
  or-zero r,
  zero-or v,
)
