-- ===== src/Words.antt =====
-- The machine integers of asmdefs.h: `emu8`, `emu16` and `emu32` as natural numbers, with C's
-- casts, shifts and bit operations. `emu32` has 32 bits, as on the i386 Linux of the sources.
pub mod Bits
pub mod Algebra
use Prim.Native.Nat.{bit_and, bit_or}
use emufxtool.Base.{ℕ, ◌+◌, ◌-◌, ◌*◌, ◌/◌, ◌%◌, ◌^◌, ◌≤◌, ◌<◌, ◌≡◌, Bool, not, arith, ◌==◌}

abbrev pub u8 : ℕ → ℕ
u8 n = n % 2 ^ 8

abbrev pub u16 : ℕ → ℕ
u16 n = n % 2 ^ 16

abbrev pub u32 : ℕ → ℕ
u32 n = n % 2 ^ 32

abbrev pub max_u32 : ℕ
max_u32 = 2 ^ 32 - 1

infixl 75 ◌<<<◌ ◌>>>◌
abbrev pub ◌<<<◌ : ℕ → ℕ → ℕ
x <<< k = u32 (x * 2 ^ k)

abbrev pub ◌>>>◌ : ℕ → ℕ → ℕ
x >>> k = x / 2 ^ k

-- `~x`
abbrev pub complement : ℕ → ℕ
complement x = max_u32 - x

abbrev pub add32 : ℕ → ℕ → ℕ
add32 a b = u32 (a + b)

-- 2 ^ 32 is added first, since `-` stops at 0.
abbrev pub sub32 : ℕ → ℕ → ℕ
sub32 a b = u32 (a + (2 ^ 32 - b))

-- A word as the condition of an `if`.
abbrev pub is_set : ℕ → Bool
is_set x = not (x == 0)
