-- ===== src/Base/HashMap.antt =====
-- `std::collections::HashMap`, as far as the code uses it: an association list. The order of the
-- list stands for the unspecified order of iteration.
use Prim.Native.Nat.{◌≤◌}
use mathlib.Core.Path.{◌≡◌, refl}
use mathlib.Core.Bool.{Bool}
use mathlib.Core.List.{List, [], ◌∷◌}
use mathlib.Core.Option.{Option, none, some}
use native.Mathlib.Omega.{arith}
use nexus_net.Base.Tests.{Eq, if◌then◌else◌, is_some}
use nexus_net.Base.Lists.{length}

module _ {ℓ κ} {K : Type ℓ} {V : Type κ} ⦃e : Eq K⦄ where
  unfoldable pub get : List (K × V) → K → Option V
  get [] k = none
  get ((j, v) ∷ m) k = if e.beq j k then some v else get m k

  unfoldable pub remove : K → List (K × V) → List (K × V)
  remove k [] = []
  remove k ((j, v) ∷ m) = if e.beq j k then remove k m else (j, v) ∷ remove k m

  unfoldable pub insert : K → V → List (K × V) → List (K × V)
  insert k v m = (k, v) ∷ remove k m

  abbrev pub contains_key : List (K × V) → K → Bool
  contains_key m k = is_some (get m k)

  -- `m.entry(k).or_insert(v)`, for the effect on the map.
  unfoldable pub or_insert : K → V → List (K × V) → List (K × V)
  or_insert k v m = if contains_key m k then m else insert k v m

  pub get-remove :
      (k j : K) (m : List (K × V)) → get (remove k m) j ≡ (if e.beq k j then none else get m j)
  unfolding get remove
  get-remove k j [] = ground arith
  get-remove k j ((i, v) ∷ m) =
      ground (arith, e.beq_iff k j, e.beq_iff i k, e.beq_iff i j, get-remove k j m)

  pub get-insert :
      (k j : K) (v : V) (m : List (K × V))
      → get (insert k v m) j ≡ (if e.beq k j then some v else get m j)
  unfolding insert get
  get-insert k j v m = ground (arith, get-remove k j m)

  pub get-or_insert :
      (k j : K) (v : V) (m : List (K × V))
      → get (or_insert k v m) j
        ≡ (if contains_key m k then get m j else (if e.beq k j then some v else get m j))
  unfolding or_insert
  get-or_insert k j v m = ground (arith, get-insert k j v m)

  pub length-remove-le : (k : K) (m : List (K × V)) → length (remove k m) ≤ length m
  unfolding remove
  length-remove-le k [] = omega arith
  length-remove-le k ((i, v) ∷ m) = ground (arith, length-remove-le k m)

  pub remove_absent : (k : K) (m : List (K × V)) → get m k ≡ none → remove k m ≡ m
  unfolding get remove
  remove_absent k [] h = refl
  remove_absent k ((i, v) ∷ m) h = ground (arith, remove_absent k m)
