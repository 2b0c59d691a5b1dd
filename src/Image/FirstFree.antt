-- ===== src/Image/FirstFree.antt =====
-- The search for a free register ends: each occupied address leaves fewer registers ahead.
use emufxtool.Base.{
  ℕ, zero, suc, ◌+◌, ◌≤◌, ◌<◌, ◌≡◌, ◌≢◌, none, some, [], ◌∷◌, arith, leb, length, if◌then◌else◌,
  inl, inr, Option-cases,
}
use emufxtool.Base.Table.{Table, nat_key, lookup}
use emufxtool.Image.Registers.{first_free}

module _ {V : Type 0} where
  -- How many registers lie at `base` or above.
  count_from : ℕ → Table ℕ V → ℕ
  count_from base [] = 0
  count_from base ((k, v) ∷ t) = (if leb base k then 1 else 0) + count_from base t

  count_from-le-length : (base : ℕ) (t : Table ℕ V) → count_from base t ≤ length t
  unfolding count_from
  count_from-le-length base [] = omega arith
  count_from-le-length base ((k, v) ∷ t) = ground (arith, count_from-le-length base t)

  count_from-suc : (base : ℕ) (t : Table ℕ V) → count_from (base + 1) t ≤ count_from base t
  unfolding count_from
  count_from-suc base [] = omega arith
  count_from-suc base ((k, v) ∷ t) = ground (arith, count_from-suc base t)

  count_from_occupied :
      (base : ℕ) (t : Table ℕ V) {v : V}
      → lookup base t ≡ some v
      → count_from (base + 1) t < count_from base t
  unfolding count_from
  count_from_occupied base [] {v} h = cc
  count_from_occupied base ((k, w) ∷ t) {v} h =
      ground (arith, count_from_occupied base t {v = v}, count_from-suc base t)

  -- What `first_free` finds: the first address from `base` on that has no register.
  pub record IsFirstFree (t : Table ℕ V) (base addr : ℕ) : Type 0 where
    pub free : lookup addr t ≡ none
    pub from : base ≤ addr
    pub near : addr ≤ base + length t
    pub first : (b : ℕ) → base ≤ b → b < addr → lookup b t ≢ none

  search_free :
      (fuel : ℕ) (t : Table ℕ V) (base : ℕ)
      → count_from base t < fuel
      → (lookup (first_free fuel t base) t ≡ none)
        × (base ≤ first_free fuel t base)
        × (first_free fuel t base ≤ base + count_from base t)
        × ((b : ℕ) → base ≤ b → b < first_free fuel t base → lookup b t ≢ none)
  unfolding first_free
  search_free zero t base h = absurd (omega arith)
  search_free (suc fuel) t base h = elim (Option-cases (lookup base t)) [
    | inl vacant ↦
        rw (vacant, first_free) (vacant, omega arith, omega arith, λ b p q. absurd (omega arith))
    | inr (v, taken) ↦
        let ih =
          search_free fuel t (base + 1) (omega (arith, h, count_from_occupied base t taken)) in
        rw (taken, first_free)
          (
            ih.0,
            omega (arith, ih.1),
            omega (arith, ih.2, count_from_occupied base t taken),
            λ b p q. ground (arith, ih.3 b, taken),
          )
  ]

  -- With one more round of fuel than there are registers, the search finds the first address from
  -- `base` on that has no register, at most as far from `base` as there are registers.
  pub first_free-IsFirstFree :
      (t : Table ℕ V) (base : ℕ) → IsFirstFree t base (first_free (suc (length t)) t base)
  first_free-IsFirstFree t base =
      let found =
        search_free (suc (length t)) t base (omega (arith, count_from-le-length base t)) in
      record {
        free = found.0;
        from = found.1;
        near = omega (arith, found.2, count_from-le-length base t);
        first = found.3;
      }
