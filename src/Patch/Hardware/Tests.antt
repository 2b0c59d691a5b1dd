-- ===== src/Patch/Hardware/Tests.antt =====
-- A register and two instructions on their way to the driver and back.
use native.Mathlib.Omega.{arith}
use emufxtool.Base.{
  ℕ, zero, suc, ◌/◌, ◌%◌, ◌≡◌, refl, false, some, List, [], ◌∷◌, ◌++◌, length, get_or,
}
use emufxtool.Words.Bits.{zero-and}
use emufxtool.Words.{◌<<<◌}
use emufxtool.Words.Algebra.{AllWords}
use emufxtool.Flags.{v_gpr}
use emufxtool.Dsp.{Code64, init_defaults}
use emufxtool.Image.Data.{Code, Image}
use emufxtool.Image.Operations.{new_image}
use emufxtool.Driver.BitSets.{test_bit, set_bit}
use emufxtool.Patch.Hardware.{FxCode, ninstr, poke_registers, hw_set, hw_get}
use emufxtool.Patch.Hardware.Placing.{HasRoom}
use emufxtool.Patch.Hardware.Instructions.{AreNumbered, hw_get-hw_set}

abbrev repeated {ℓ} : {A : Type ℓ} → ℕ → A → List A
repeated zero x = []
repeated (suc n) x = x ∷ repeated n x

length-repeated {ℓ} : {A : Type ℓ} (n : ℕ) (x : A) → length (repeated n x) ≡ n
length-repeated zero x = refl
length-repeated (suc n) x = omega (arith, length-repeated n x)

get_or-repeated : (n i : ℕ) → get_or (repeated n zero) i zero ≡ zero
get_or-repeated zero i = refl
get_or-repeated (suc n) zero = refl
get_or-repeated (suc n) (suc i) = get_or-repeated n i

repeated-AllWords : (n : ℕ) → AllWords (repeated n 0)
repeated-AllWords zero = tt
repeated-AllWords (suc n) = (omega arith, repeated-AllWords n)

abbrev no_word : Code64
no_word = record { high = 0; low = 0 }

-- The structure after `memset`.
abbrev cleared : FxCode
cleared = record {
  gpr_valid = repeated 8 0;
  gpr_map = repeated 256 0;
  tram_valid = repeated 5 0;
  tram_data_map = repeated 160 0;
  tram_addr_map = repeated 160 0;
  code_valid = repeated 16 0;
  code = repeated 512 no_word;
}

cleared-HasRoom : HasRoom ninstr cleared
cleared-HasRoom = record {
  words = repeated-AllWords 16;
  bits = omega (arith, length-repeated 16 zero);
  places = omega (arith, length-repeated 512 no_word);
}

cleared_empty : (j : ℕ) → test_bit cleared.code_valid j ≡ false
unfolding test_bit
cleared_empty j = rw (get_or-repeated 16 (j / 32), zero-and (1 <<< (j % 32))) refl

abbrev instructions : List Code
instructions =
    record { hi = 0x040040; lo = 0x10040; pc = 0 }
    ∷ record { hi = 0xf40101; lo = 0x10041; pc = 1 }
    ∷ []

abbrev loaded_image : Image
loaded_image = record new_image {
  registers = (0x101, record { address = 0x101; value = 7; flags = v_gpr }) ∷ [];
  code = instructions;
}

instructions-AreNumbered : AreNumbered 0 instructions
instructions-AreNumbered = (refl, omega arith, omega arith, (refl, omega arith, omega arith, tt))

abbrev with_register : FxCode
with_register = record cleared {
  gpr_valid = set_bit cleared.gpr_valid 1;
  gpr_map = 0 ∷ 7 ∷ repeated 254 0;
}

registers-placed : poke_registers init_defaults loaded_image.registers cleared ≡ some with_register
unfolding poke_registers
registers-placed = refl

hw_get-hw_set_example :
    (fx : FxCode) × (hw_set loaded_image cleared ≡ some fx)
    × ((hw_get fx new_image).code ≡ new_image.code ++ instructions)
hw_get-hw_set_example =
    hw_get-hw_set loaded_image new_image cleared with_register refl refl instructions-AreNumbered
      (omega arith) cleared-HasRoom cleared_empty registers-placed
