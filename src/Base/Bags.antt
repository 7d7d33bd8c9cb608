-- ===== src/Base/Bags.antt =====
-- Lists up to their order, by how often each value occurs: what a `HashMap` or a queue holds, when
-- only that matters.
use Prim.Native.Nat.{ℕ, ◌+◌}
use mathlib.Core.Path.{refl, ◌≡◌}
use mathlib.Core.Bool.{false, true, Bool}
use mathlib.Core.Quot
use mathlib.Core.Quot.{Quot-set, Quot}
use mathlib.Core.List.{◌∷◌, [], List, ◌++◌}
use native.Mathlib.Omega.{arith}
use nexus_net.Base.Tests.{Eq}

abbrev pub one_if : Bool → ℕ
one_if true = 1
one_if false = 0

module _ {A : Type 0} ⦃e : Eq A⦄ where
  abbrev pub count : A → List A → ℕ
  count k [] = 0
  count k (x ∷ rest) = count k rest + one_if (e.beq x k)

  pub count-append :
      (k : A) (front back : List A) → count k (front ++ back) ≡ count k front + count k back
  count-append k [] back = omega arith
  count-append k (x ∷ rest) back = omega (arith, count-append k rest back)

  abbrev pub Reordered : List A → List A → Type 0
  Reordered front back = (k : A) → count k front ≡ count k back

module _ (A : Type 0) ⦃e : Eq A⦄ where
  abbrev pub Bag : Type 0
  Bag = Quot (Reordered {A = A})

module _ {A : Type 0} ⦃e : Eq A⦄ where
  abbrev pub bag : List A → Bag A
  bag items = Quot.mk items

  pub bag-eq : (front back : List A) → Reordered front back → bag front ≡ bag back
  bag-eq front back same = Quot.sound same

  pub one_more :
      (x : A) (front back : List A) → Reordered front back → bag (x ∷ front) ≡ bag (x ∷ back)
  one_more x front back same = bag-eq (x ∷ front) (x ∷ back) λ k. omega (arith, same k)

  -- One more of a value.
  unfoldable pub put : A → Bag A → Bag A
  put x b = Quot.lift Quot-set (λ items. bag (x ∷ items)) (one_more x) b

  pub put-bag : (x : A) (items : List A) → put x (bag items) ≡ bag (x ∷ items)
  unfolding put
  put-bag x items = refl
