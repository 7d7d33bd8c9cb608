-- ===== src/Base/HashSet.antt =====
-- `std::collections::HashSet`, as far as the code uses it: a list without repetitions. The order of
-- the list stands for the unspecified order of iteration.
use mathlib.Core.Path.{◌≡◌, refl}
use mathlib.Core.Bool.{true, Bool, false, not, ◌&&◌, ◌||◌}
use mathlib.Core.List.{List, [], ◌∷◌, ◌++◌, foldl}
use native.Mathlib.Omega.{arith}
use nexus_net.Base.Tests.{Eq, if◌then◌else◌}
use nexus_net.Base.Lists.{select, All, All-imp}

module _ {ℓ} {K : Type ℓ} ⦃e : Eq K⦄ where
  unfoldable pub contains : List K → K → Bool
  contains [] k = false
  contains (x ∷ xs) k = e.beq x k || contains xs k

  unfoldable pub insert : K → List K → List K
  insert k s = if contains s k then s else k ∷ s

  unfoldable pub remove : K → List K → List K
  remove k [] = []
  remove k (x ∷ xs) = if e.beq x k then remove k xs else x ∷ remove k xs

  -- `for k in xs { s.insert(k) }`
  unfoldable pub extend : List K → List K → List K
  extend s xs = foldl (λ t k. insert k t) s xs

  pub contains-insert :
      (k j : K) (s : List K) → contains (insert k s) j ≡ (e.beq k j || contains s j)
  unfolding insert contains
  contains-insert k j s = ground (arith, e.beq_iff k j)

  pub contains-remove :
      (k j : K) (s : List K) → contains (remove k s) j ≡ (not (e.beq k j) && contains s j)
  unfolding remove contains
  contains-remove k j [] = ground arith
  contains-remove k j (x ∷ xs) =
      ground (arith, e.beq_iff k j, e.beq_iff x k, e.beq_iff x j, contains-remove k j xs)

  pub contains-extend :
      (s xs : List K) (j : K) → contains (extend s xs) j ≡ (contains xs j || contains s j)
  unfolding extend contains
  contains-extend s [] j = refl
  contains-extend s (x ∷ xs) j =
      ground (arith, contains-extend (insert x s) xs j, contains-insert x j s)

  pub contains-append :
      (xs ys : List K) (j : K) → contains (xs ++ ys) j ≡ (contains xs j || contains ys j)
  unfolding contains
  contains-append [] ys j = refl
  contains-append (x ∷ xs) ys j = ground (arith, contains-append xs ys j)

  pub contains-select :
      (p : K → Bool) (xs : List K) (j : K) → contains (select p xs) j ≡ (p j && contains xs j)
  unfolding contains
  contains-select p [] j = ground arith
  contains-select p (x ∷ xs) j = ground (arith, e.beq_iff x j, contains-select p xs j)

  -- Each member is contained.
  pub contains_self : (xs : List K) → All (λ k. contains xs k ≡ true) xs
  unfolding contains
  contains_self [] = tt
  contains_self (x ∷ xs) =
      (ground (arith, e.beq_iff x x), All-imp xs (λ k h. ground arith) (contains_self xs))
