-- ===== src/Image/Allocation.antt =====
-- Variables and tram lines: what their allocation stores, and what it leaves alone.
use Prim.Native.Nat.{bit_or}
use emufxtool.Base.{ℕ, ◌+◌, ◌≤◌, ◌≡◌, refl, ◌≢◌, none, some, arith}
use emufxtool.Base.Table.{nat_key, lookup, insert, lookup-insert, lookup-insert_self}
use emufxtool.Words.{u16}
use emufxtool.Flags.{v_read, v_write}
use emufxtool.Image.Data.{RegisterImage, Image}
use emufxtool.Image.FirstFree.{first_free-IsFirstFree}
use emufxtool.Image.Operations.{
  new_image, new_register, new_variable, new_line, constant_at, get_value,
}
use emufxtool.Image.Constants.{IsCoherent, Keeps, insert-Keeps}

-- What the allocation of a variable establishes.
pub record IsVariable (img : Image) (value : ℕ) (result : ℕ × Image) : Type 0 where
  pub was_free : lookup result.0 img.registers ≡ none
  pub holds : get_value result.1 result.0 ≡ value
  pub keeps : Keeps img result.1
  pub coherent : IsCoherent result.1
  pub next : result.1.current_gpr ≡ result.0 + 1
  pub others : (a : ℕ) → a ≢ result.0 → lookup a result.1.registers ≡ lookup a img.registers
  pub same_rest :
      result.1 ≡ record img { registers = result.1.registers; current_gpr = result.1.current_gpr }

-- In a coherent image a new variable gets a register that was free, which then holds its value,
-- and the next register to be tried is the one behind it. At every other address there is what
-- there was, nothing else of the image changes, and it stays coherent.
pub new_variable-IsVariable :
    (img : Image) (value flags : ℕ)
    → IsCoherent img
    → IsVariable img value (new_variable img value flags)
unfolding new_variable new_register get_value
new_variable-IsVariable img value flags coherent =
    let addr = (new_variable img value flags).0 in
    let found = first_free-IsFirstFree img.registers img.current_gpr in
    let reg : RegisterImage = record {
      address = u16 addr;
      value = value;
      flags = bit_or flags (bit_or v_read v_write);
    } in
    record {
      was_free = found.free;
      holds = rw (lookup-insert_self addr reg img.registers, get_value);
      keeps = insert-Keeps img.registers addr reg found.free;
      coherent = record {
        below = λ c a h. ground (arith, coherent.below c a h, found.from);
        agrees = λ c a h. ground (
          arith,
          coherent.below c a h,
          coherent.agrees c a h,
          found.from,
          lookup-insert addr a reg img.registers,
        );
      };
      next = refl;
      others = λ a ne. ground (arith, ne, lookup-insert addr a reg img.registers);
      same_rest = refl;
    }

-- What the allocation of a tram line establishes: a register for its data, and one for its
-- address 0x100 above.
pub record IsLine (img : Image) (offset : ℕ) (result : ℕ × Image) : Type 0 where
  pub was_free : lookup result.0 img.registers ≡ none
  pub data_holds : get_value result.1 result.0 ≡ 0
  pub address_holds : get_value result.1 (result.0 + 0x100) ≡ offset
  pub keeps :
      (a : ℕ) (r : RegisterImage)
      → a ≢ result.0 + 0x100
      → lookup a img.registers ≡ some r
      → lookup a result.1.registers ≡ some r
  pub coherent : IsCoherent result.1

-- In a coherent image whose next register lies below its next line, a new line gets a free data
-- register with 0 and, 0x100 above, an address register with its offset. The image stays
-- coherent, and every register but that at the new address register stays as it was.
pub new_line-IsLine :
    (img : Image) (offset flags : ℕ)
    → IsCoherent img
    → img.current_gpr ≤ img.current_line
    → IsLine img offset (new_line img offset flags)
unfolding new_line new_register get_value
new_line-IsLine img offset flags coherent order =
    let addr = (new_line img offset flags).0 in
    let found = first_free-IsFirstFree img.registers img.current_line in
    let fl = bit_or flags (bit_or v_read v_write) in
    let line : RegisterImage = record { address = u16 addr; value = 0; flags = fl } in
    let target : RegisterImage = record { address = 0; value = offset; flags = fl } in
    let inner = insert addr line img.registers in
    record {
      was_free = found.free;
      data_holds = ground (
        arith,
        lookup-insert (addr + 0x100) addr target inner,
        lookup-insert_self addr line img.registers,
      );
      address_holds = rw (lookup-insert_self (addr + 0x100) target inner, get_value);
      keeps = λ a r ne h. ground (
        arith,
        lookup-insert (addr + 0x100) a target inner,
        insert-Keeps img.registers addr line found.free a r h,
      );
      coherent = record {
        below = λ c a h. coherent.below c a h;
        agrees = λ c a h. ground (
          arith,
          coherent.below c a h,
          coherent.agrees c a h,
          found.from,
          lookup-insert (addr + 0x100) a target inner,
          lookup-insert addr a line img.registers,
        );
      };
    }

-- The image that the constructor makes is coherent.
pub new_image-IsCoherent : IsCoherent new_image
unfolding get_value constant_at
new_image-IsCoherent = record { below = λ c a h. ground arith; agrees = λ c a h. ground arith }
