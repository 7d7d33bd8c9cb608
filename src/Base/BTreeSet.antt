-- ===== src/Base/BTreeSet.antt =====
-- `BTreeSet<String>` and `Vec::sort`, `Vec::dedup` on strings: lists in the order of `str`.
use mathlib.Core.Path.{◌≡◌, refl}
use mathlib.Core.Bool.{Bool, true, false, ◌||◌, ◌&&◌}
use mathlib.Core.Logic.{◌↔◌}
use mathlib.Core.List.{List, [], ◌∷◌, foldl}
use native.Mathlib.Omega.{arith}
use Prim.Native.Nat.{suc, ◌≤◌}
use nexus_net.Base.Tests.{if◌then◌else◌}
use nexus_net.Base.Lists.{length, All}
use nexus_net.Base.HashSet.{contains}
use nexus_net.Base.Names.{Name, name_beq, name_ltb, name_beq_iff, name_eq}

unfoldable pub insert : Name → List Name → List Name
insert k [] = k ∷ []
insert k (x ∷ xs) =
    if name_beq x k then x ∷ xs else if name_ltb k x then k ∷ x ∷ xs else x ∷ insert k xs

-- `iter.collect::<BTreeSet<_>>()`
unfoldable pub collect : List Name → List Name
collect xs = foldl (λ s x. insert x s) [] xs

unfoldable pub sort_insert : Name → List Name → List Name
sort_insert k [] = k ∷ []
sort_insert k (x ∷ xs) = if name_ltb x k then x ∷ sort_insert k xs else k ∷ x ∷ xs

unfoldable pub sort : List Name → List Name
unfolding sort_insert
sort [] = []
sort (x ∷ xs) = sort_insert x (sort xs)

-- `Vec::dedup`: of equal neighbours the first one stays.
unfoldable pub dedup : List Name → List Name
dedup [] = []
dedup (x ∷ []) = x ∷ []
dedup (x ∷ y ∷ ys) = let rest = dedup (y ∷ ys) in if name_beq x y then rest else x ∷ rest

pub contains-insert :
    (k j : Name) (s : List Name) → contains (insert k s) j ≡ (name_beq k j || contains s j)
unfolding insert contains
contains-insert k j [] = refl
contains-insert k j (x ∷ xs) =
    ground (arith, name_beq_iff x k, name_beq_iff k j, name_beq_iff x j, contains-insert k j xs)

pub length-insert-le : (k : Name) (s : List Name) → length (insert k s) ≤ suc (length s)
unfolding insert
length-insert-le k [] = omega arith
length-insert-le k (x ∷ xs) = ground (arith, length-insert-le k xs)

module _ {κ} (P : Name → Type κ) where
  pub insert-All : (k : Name) (s : List Name) → P k → All P s → All P (insert k s)
  unfolding insert
  insert-All k [] p h = (p, tt)
  insert-All k (x ∷ xs) p h = ground (arith, insert-All k xs p h.1)

  sort_insert-All : (k : Name) (s : List Name) → P k → All P s → All P (sort_insert k s)
  unfolding sort_insert
  sort_insert-All k [] p h = (p, tt)
  sort_insert-All k (x ∷ xs) p h = ground (arith, sort_insert-All k xs p h.1)

  pub sort-All : (s : List Name) → All P s → All P (sort s)
  unfolding sort
  sort-All [] h = tt
  sort-All (x ∷ xs) h = sort_insert-All x (sort xs) h.0 (sort-All xs h.1)

  pub dedup-All : (s : List Name) → All P s → All P (dedup s)
  unfolding dedup
  dedup-All [] h = tt
  dedup-All (x ∷ []) h = h
  dedup-All (x ∷ y ∷ ys) h = ground (arith, dedup-All (y ∷ ys) h.1)

pub contains-sort_insert :
    (k j : Name) (s : List Name) → contains (sort_insert k s) j ≡ (name_beq k j || contains s j)
unfolding sort_insert contains
contains-sort_insert k j [] = refl
contains-sort_insert k j (x ∷ xs) = ground (arith, contains-sort_insert k j xs)

pub contains-sort : (s : List Name) (j : Name) → contains (sort s) j ≡ contains s j
unfolding sort contains
contains-sort [] j = refl
contains-sort (x ∷ xs) j = ground (arith, contains-sort_insert x j (sort xs), contains-sort xs j)

pub contains-dedup : (s : List Name) (j : Name) → contains (dedup s) j ≡ contains s j
unfolding dedup contains
contains-dedup [] j = refl
contains-dedup (x ∷ []) j = refl
contains-dedup (x ∷ y ∷ ys) j =
    ground (arith, contains-dedup (y ∷ ys) j, name_beq_iff x y, name_beq_iff x j, name_beq_iff y j)

-- `==` of two sets.
unfoldable pub equal : List Name → List Name → Bool
equal [] [] = true
equal [] (y ∷ ys) = false
equal (x ∷ xs) [] = false
equal (x ∷ xs) (y ∷ ys) = name_beq x y && equal xs ys

pub equal_iff : (xs ys : List Name) → (equal xs ys ≡ true) ↔ (xs ≡ ys)
unfolding equal
equal_iff [] [] = ground arith
equal_iff [] (y ∷ ys) = ground arith
equal_iff (x ∷ xs) [] = ground arith
equal_iff (x ∷ xs) (y ∷ ys) = ground (arith, name_beq_iff x y, equal_iff xs ys)
