-- ===== src/Base/Tables.antt =====
-- Tables of entries that each hold one value of interest, such as a reply channel: how often each such
-- value stands in a table.
use Prim.Native.Nat.{ℕ, ◌+◌}
use mathlib.Core.Path.{◌≡◌, ap}
use mathlib.Core.Logic.{inl, inr}
use mathlib.Core.Option.{Option, none, some}
use mathlib.Core.List.{List, [], ◌∷◌}
use native.Mathlib.Omega.{arith}
use nexus_net.Base.HashMap
use nexus_net.Base.Bags.{count}
use nexus_net.Base.Tests.{Eq, nat_eq, Bool-cases}

abbrev pub of_entry {ℓ} : {V : Type ℓ} → (V → ℕ) → ℕ → Option V → ℕ
of_entry w c none = 0
of_entry w c (some v) = count c (w v ∷ [])

-- How often a value stands in a table.
abbrev pub tally {ℓ κ} : {K : Type ℓ} {V : Type κ} → (V → ℕ) → ℕ → List (K × V) → ℕ
tally w c [] = 0
tally w c ((k, v) ∷ m) = tally w c m + count c (w v ∷ [])

module _ {K V : Type 0} ⦃e : Eq K⦄ where
  -- No key occurs twice.
  abbrev pub IsTable : List (K × V) → Type 0
  IsTable [] = Unit
  IsTable ((k, v) ∷ m) = (HashMap.get m k ≡ none) × IsTable m

  pub remove-IsTable : (k : K) (m : List (K × V)) → IsTable m → IsTable (HashMap.remove k m)
  unfolding HashMap.remove
  remove-IsTable k [] h = tt
  remove-IsTable k ((j, v) ∷ m) h = elim (Bool-cases (e.beq j k)) [
    | inl same ↦ rw same (remove-IsTable k m h.1)
    | inr other ↦ rw other (ground (arith, HashMap.get-remove k j m), remove-IsTable k m h.1)
  ]

  pub insert-IsTable :
      (k : K) (v : V) (m : List (K × V)) → IsTable m → IsTable (HashMap.insert k v m)
  unfolding HashMap.insert
  insert-IsTable k v m h =
      (ground (arith, HashMap.get-remove k k m, e.beq_iff k k), remove-IsTable k m h)

  module _ (w : V → ℕ) (c : ℕ) where
    pub tally-remove :
        (k : K) (m : List (K × V))
        → IsTable m
        → tally w c m ≡ of_entry w c (HashMap.get m k) + tally w c (HashMap.remove k m)
    unfolding HashMap.get HashMap.remove
    tally-remove k [] h = omega arith
    tally-remove k ((j, v) ∷ m) h = elim (Bool-cases (e.beq j k)) [
      | inl same ↦
          ground (arith, same, e.beq_iff j k, HashMap.remove_absent k m, ap (of_entry w c) h.0)
      | inr other ↦ ground (arith, other, tally-remove k m h.1)
    ]

    pub tally-insert :
        (k : K) (v : V) (m : List (K × V))
        → IsTable m
        → tally w c (HashMap.insert k v m) + of_entry w c (HashMap.get m k)
          ≡ tally w c m + count c (w v ∷ [])
    unfolding HashMap.insert
    tally-insert k v m h = ground (arith, tally-remove k m h)
