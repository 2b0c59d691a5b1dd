-- ===== src/Base/Sorted.antt =====
-- Tables over numbers are kept in strictly ascending order of their keys.
use Prim.Native.Nat.{ℕ, ◌<◌}
use mathlib.Core.Path.{◌≡◌, refl}
use mathlib.Core.List.{[], ◌∷◌, ◌++◌}
use native.Mathlib.Omega.{arith}
use emufxtool.Base.Table.{Table, nat_key, insert}

module _ {V : Type 0} where
  abbrev pub AllAbove : ℕ → Table ℕ V → Type 0
  AllAbove k [] = Unit
  AllAbove k ((j, v) ∷ t) = (k < j) × AllAbove k t

  abbrev pub AllBelow : ℕ → Table ℕ V → Type 0
  AllBelow k [] = Unit
  AllBelow k ((j, v) ∷ t) = (j < k) × AllBelow k t

  abbrev pub IsSorted : Table ℕ V → Type 0
  IsSorted [] = Unit
  IsSorted ((k, v) ∷ t) = AllAbove k t × IsSorted t

  AllAbove-mono : (i k : ℕ) (t : Table ℕ V) → i < k → AllAbove k t → AllAbove i t
  AllAbove-mono i k [] h p = tt
  AllAbove-mono i k ((j, v) ∷ t) h p = (omega (arith, p.0), AllAbove-mono i k t h p.1)

  AllAbove-insert :
      (i k : ℕ) (v : V) (t : Table ℕ V) → i < k → AllAbove i t → AllAbove i (insert k v t)
  AllAbove-insert i k v [] h p = (h, tt)
  AllAbove-insert i k v ((j, w) ∷ t) h p = ground (arith, AllAbove-insert i k v t h p.1)

  pub insert-IsSorted : (k : ℕ) (v : V) (t : Table ℕ V) → IsSorted t → IsSorted (insert k v t)
  insert-IsSorted k v [] p = (tt, tt)
  insert-IsSorted k v ((j, w) ∷ t) p =
      ground (arith, insert-IsSorted k v t p.1, AllAbove-insert j k v t, AllAbove-mono k j t)

  pub insert_last : (k : ℕ) (v : V) (t : Table ℕ V) → AllBelow k t → insert k v t ≡ t ++ (k, v) ∷ []
  insert_last k v [] p = refl
  insert_last k v ((j, w) ∷ t) p = ground (arith, insert_last k v t p.1)

  pub AllBelow-snoc :
      (i k : ℕ) (v : V) (t : Table ℕ V) → AllBelow i t → i < k → AllBelow k (t ++ (i, v) ∷ [])
  AllBelow-snoc i k v [] p h = (h, tt)
  AllBelow-snoc i k v ((j, w) ∷ t) p h = (omega (arith, p.0), AllBelow-snoc i k v t p.1 h)
