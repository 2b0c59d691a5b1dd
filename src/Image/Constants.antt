-- ===== src/Image/Constants.antt =====
-- Constants and registers agree: what `MapConstant` maps a constant to holds that constant, and
-- no allocation takes a register that is in use.
use emufxtool.Base.{
  ℕ, suc, ◌+◌, ◌^◌, ◌≤◌, ◌<◌, ◌≡◌, ◌≢◌, none, some, [], ◌∷◌, arith, length, inl, inr, Option-cases,
}
use emufxtool.Base.Table.{Table, nat_key, lookup, insert, lookup-insert, lookup-insert_self}
use emufxtool.Words.{u16}
use emufxtool.Flags.{v_read}
use emufxtool.Image.Data.{RegisterImage, Image}
use emufxtool.Image.Registers.{first_free}
use emufxtool.Image.FirstFree.{first_free-IsFirstFree}
use emufxtool.Image.Operations.{new_register, constant_at, get_value, map_constant}

-- Every mapped constant has an address below the next register, and that address holds it.
pub record IsCoherent (img : Image) : Type 0 where
  pub below : (c a : ℕ) → lookup c img.constants ≡ some a → a < img.current_gpr
  pub agrees : (c a : ℕ) → lookup c img.constants ≡ some a → get_value img a ≡ c

-- Every register of `img` is there in `img'` as it was.
abbrev pub Keeps : Image → Image → Type 0
Keeps img img' =
    (a : ℕ) (r : RegisterImage) → lookup a img.registers ≡ some r → lookup a img'.registers ≡ some r

constant_at-insert :
    (a k v : ℕ) (t : Table ℕ ℕ)
    → a ≢ v
    → lookup k t ≡ none
    → constant_at a (insert k v t) ≡ constant_at a t
unfolding constant_at
constant_at-insert a k v [] ne new = ground arith
constant_at-insert a k v ((j, w) ∷ t) ne new = ground (arith, constant_at-insert a k v t ne)

abbrev pub next_free : Image → ℕ
next_free img = first_free (suc (length img.registers)) img.registers img.current_gpr

-- The image with a register at `addr` that holds a constant.
abbrev pub with_constant : Image → ℕ → ℕ → Image
with_constant img constant addr = record img {
  registers =
      insert addr (record { address = u16 addr; value = constant; flags = v_read }) img.registers;
  constants = insert constant addr img.constants;
  current_gpr = addr + 1;
}

pub with_constant-IsCoherent :
    (img : Image) (constant addr : ℕ)
    → IsCoherent img
    → lookup constant img.constants ≡ none
    → img.current_gpr ≤ addr
    → IsCoherent (with_constant img constant addr)
unfolding get_value
with_constant-IsCoherent img constant addr coherent new above =
    let reg : RegisterImage = record { address = u16 addr; value = constant; flags = v_read } in
    record {
      below =
          λ c a h. ground (arith, lookup-insert constant c addr img.constants, coherent.below c a);
      agrees = λ c a h. ground (
        arith,
        lookup-insert constant c addr img.constants,
        coherent.below c a,
        coherent.agrees c a,
        lookup-insert addr a reg img.registers,
        constant_at-insert a constant addr img.constants,
      );
    }

pub insert-Keeps :
    (t : Table ℕ RegisterImage) (addr : ℕ) (new : RegisterImage)
    → lookup addr t ≡ none
    → (a : ℕ) (r : RegisterImage) → lookup a t ≡ some r
    → lookup a (insert addr new t) ≡ some r
insert-Keeps t addr new free a r h = ground (arith, lookup-insert addr a new t)

pub map_constant_known :
    (img : Image) (constant addr : ℕ)
    → lookup constant img.constants ≡ some addr
    → map_constant img constant ≡ (addr, img)
unfolding map_constant
map_constant_known img constant addr known = rw (known, map_constant)

pub map_constant_new :
    (img : Image) (constant : ℕ)
    → u16 (next_free img) ≡ next_free img
    → lookup constant img.constants ≡ none
    → map_constant img constant ≡ (next_free img, with_constant img constant (next_free img))
unfolding map_constant new_register
map_constant_new img constant fits new = rw (new, map_constant, fits)

-- What mapping a constant establishes.
pub record IsMapped (img : Image) (constant : ℕ) (result : ℕ × Image) : Type 0 where
  pub coherent : IsCoherent result.1
  pub holds : get_value result.1 result.0 ≡ constant
  pub keeps : Keeps img result.1
  pub again : map_constant result.1 constant ≡ result

known-IsMapped :
    (img : Image) (constant addr : ℕ)
    → IsCoherent img
    → lookup constant img.constants ≡ some addr
    → IsMapped img constant (addr, img)
known-IsMapped img constant addr coherent known = record {
  coherent = coherent;
  holds = coherent.agrees constant addr known;
  keeps = λ a r h. h;
  again = map_constant_known img constant addr known;
}

-- In a coherent image with room for one more register below 2 ^ 16, mapping a constant gives an
-- address that holds the constant, leaves the image coherent and all registers as they were, and
-- mapping the same constant again gives the same address and changes nothing.
pub map_constant-IsMapped :
    (img : Image) (constant : ℕ)
    → IsCoherent img
    → img.current_gpr + length img.registers < 2 ^ 16
    → IsMapped img constant (map_constant img constant)
map_constant-IsMapped img constant coherent room =
    elim (Option-cases (lookup constant img.constants)) [
      | inr (addr, known) ↦
          rw (map_constant_known img constant addr known)
            (known-IsMapped img constant addr coherent known)
      | inl new ↦
          let found = first_free-IsFirstFree img.registers img.current_gpr in
          let addr = next_free img in
          let fits : u16 addr ≡ addr = omega (arith, found.near) in
          let after = with_constant img constant addr in
          let ok_after = with_constant-IsCoherent img constant addr coherent new found.from in
          let known = lookup-insert_self constant addr img.constants in
          let fresh = known-IsMapped after constant addr ok_after known in
          rw (map_constant_new img constant fits new) (record {
            coherent = ok_after;
            holds = fresh.holds;
            keeps = insert-Keeps img.registers addr _ found.free;
            again = fresh.again;
          })
    ]
