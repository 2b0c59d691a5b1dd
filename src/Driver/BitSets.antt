-- ===== src/Driver/BitSets.antt =====
-- The bit sets of fx8010asm.h, over an array of 32-bit words. The functions for `unsigned int` and
-- for `unsigned long` are the same here.
use Prim.Native.Nat.{bit_and, bit_or}
use emufxtool.Base.{ℕ, ◌/◌, ◌%◌, Bool, List, get_or, set}
use emufxtool.Words.{◌<<<◌, is_set}

-- `emu_fx_test_bit`, on an index that is not negative; a word behind the end has no bits.
unfoldable pub test_bit : List ℕ → ℕ → Bool
test_bit v i = is_set (bit_and (get_or v (i / 32) 0) (1 <<< (i % 32)))

-- `emu_fx_set_bit`; behind the end it changes nothing.
unfoldable pub set_bit : List ℕ → ℕ → List ℕ
set_bit v i = set v (i / 32) (bit_or (get_or v (i / 32) 0) (1 <<< (i % 32)))
