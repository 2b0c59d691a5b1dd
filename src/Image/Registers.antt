-- ===== src/Image/Registers.antt =====
-- `emuRelocationMap`, and the search for a free register.
use emufxtool.Base.{ℕ, zero, suc, ◌+◌, none, some, ◌==◌, if◌then◌else◌}
use emufxtool.Base.Table.{Table, nat_key, lookup, insert}

unfoldable pub relocate : Table ℕ ℕ → ℕ → ℕ
relocate m addr = elim (lookup addr m) [ none ↦ addr | some to ↦ to ]

unfoldable pub remap : Table ℕ ℕ → ℕ → ℕ → Table ℕ ℕ
remap m addr reloc = if addr == reloc then m else insert addr reloc m

-- The loop `while (Registers.find(base_addr) != Registers.end()) base_addr++;`, on fuel.
module _ {ℓ} {V : Type ℓ} where
  unfoldable pub first_free : ℕ → Table ℕ V → ℕ → ℕ
  first_free zero registers addr = addr
  first_free (suc fuel) registers addr = elim (lookup addr registers) [
    | none ↦ addr
    | some _ ↦ first_free fuel registers (addr + 1)
  ]
