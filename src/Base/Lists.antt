-- ===== src/Base/Lists.antt =====
-- Lists measured by native numbers, and the loop rule for a fold.
use Prim.Native.Nat.{ℕ, zero, suc, ◌+◌, ◌≤◌, min}
use mathlib.Core.Path.{◌≡◌, refl, ap}
use mathlib.Core.Logic.{◌⊎◌, inl, inr}
use mathlib.Core.List.{List, [], ◌∷◌, ◌++◌, map, foldl}
use mathlib.Core.Bool.{Bool, true, ◌&&◌}
use native.Mathlib.Omega.{arith}
use nexus_net.Base.Tests.{if◌then◌else◌}

module _ {ℓ} {A : Type ℓ} where
  abbrev pub length : List A → ℕ
  length [] = 0
  length (x ∷ xs) = suc (length xs)

  abbrev pub take : ℕ → List A → List A
  take zero xs = []
  take (suc n) [] = []
  take (suc n) (x ∷ xs) = x ∷ take n xs

  abbrev pub drop : ℕ → List A → List A
  drop zero xs = xs
  drop (suc n) [] = []
  drop (suc n) (x ∷ xs) = drop n xs

  -- `Iterator::filter` with a Boolean test.
  abbrev pub select : (A → Bool) → List A → List A
  select p [] = []
  select p (x ∷ xs) = if p x then x ∷ select p xs else select p xs

  -- `Iterator::all`.
  abbrev pub all : (A → Bool) → List A → Bool
  all p [] = true
  all p (x ∷ xs) = p x && all p xs

  pub length-append : (xs ys : List A) → length (xs ++ ys) ≡ length xs + length ys
  length-append [] ys = omega arith
  length-append (x ∷ xs) ys = omega (arith, length-append xs ys)

  pub length-append_one : (xs : List A) (x : A) → length (xs ++ x ∷ []) ≡ length xs + 1
  length-append_one xs x = omega (arith, length-append xs (x ∷ []))

  pub length-take : (n : ℕ) (xs : List A) → length (take n xs) ≡ min n (length xs)
  length-take zero xs = omega arith
  length-take (suc n) [] = omega arith
  length-take (suc n) (x ∷ xs) = omega (arith, length-take n xs)

  pub take-append-drop : (n : ℕ) (xs : List A) → take n xs ++ drop n xs ≡ xs
  take-append-drop zero xs = refl
  take-append-drop (suc n) [] = refl
  take-append-drop (suc n) (x ∷ xs) = ap (◌∷◌ x) (take-append-drop n xs)

  pub take_all : (xs : List A) → take (length xs) xs ≡ xs
  take_all [] = refl
  take_all (x ∷ xs) = ap (◌∷◌ x) (take_all xs)

  pub length-select-le : (p : A → Bool) (xs : List A) → length (select p xs) ≤ length xs
  length-select-le p [] = omega arith
  length-select-le p (x ∷ xs) = ground (arith, length-select-le p xs)

  -- A predicate on each member, computing to tuples.
  abbrev pub All {κ} : (A → Type κ) → List A → Type κ
  All P [] = Unit
  All P (x ∷ xs) = P x × All P xs

module _ {ℓ κ} {A : Type ℓ} (P : A → Type κ) where
  pub append-All : (xs ys : List A) → All P xs → All P ys → All P (xs ++ ys)
  append-All [] ys hx hy = hy
  append-All (x ∷ xs) ys hx hy = (hx.0, append-All xs ys hx.1 hy)

module _ {ℓ κ τ} {A : Type ℓ} {P : A → Type κ} {Q : A → Type τ} where
  pub All-imp : (xs : List A) → ((x : A) → P x → Q x) → All P xs → All Q xs
  All-imp [] f h = tt
  All-imp (x ∷ xs) f h = (f x h.0, All-imp xs f h.1)

module _ {ℓ} {A : Type ℓ} (p : A → Bool) where
  pub select-All {κ} : (P : A → Type κ) (xs : List A) → All P xs → All P (select p xs)
  select-All P [] h = tt
  select-All P (x ∷ xs) h = ground (arith, select-All P xs h.1)

  -- What is selected passes the test.
  pub select_passes : (xs : List A) → All (λ x. p x ≡ true) (select p xs)
  select_passes [] = tt
  select_passes (x ∷ xs) = ground (arith, select_passes xs)

pub map-All {ℓ κ τ} :
    {A : Type ℓ} {B : Type κ} (P : B → Type τ) (f : A → B) (xs : List A)
    → All (λ a. P (f a)) xs
    → All P (map f xs)
map-All P f [] h = tt
map-All P f (x ∷ xs) h = (h.0, map-All P f xs h.1)

-- The rule for a loop over a list: what each round keeps holds at the end.
pub foldl_inv {ℓ κ τ} :
    {A : Type ℓ} {S : Type κ} (P : S → Type τ) (f : S → A → S)
    → ((s : S) (a : A) → P s → P (f s a))
    → (s : S) (xs : List A) → P s
    → P (foldl f s xs)
foldl_inv P f keep s [] h = h
foldl_inv P f keep s (x ∷ xs) h = foldl_inv P f keep (f s x) xs (keep s x h)

-- The same where each member has a property that the rounds may use.
pub foldl_inv_all {ℓ κ τ υ} :
    {A : Type ℓ} {S : Type κ} (P : S → Type τ) (Q : A → Type υ) (f : S → A → S)
    → ((s : S) (a : A) → Q a → P s → P (f s a))
    → (s : S) (xs : List A) → All Q xs
    → P s
    → P (foldl f s xs)
foldl_inv_all P Q f keep s [] q h = h
foldl_inv_all P Q f keep s (x ∷ xs) q h = foldl_inv_all P Q f keep (f s x) xs q.1 (keep s x q.0 h)

pub List-cases {ℓ} :
    {A : Type ℓ} (xs : List A) → (xs ≡ []) ⊎ ((x : A) × (rest : List A) × (xs ≡ x ∷ rest))
List-cases [] = inl refl
List-cases (x ∷ rest) = inr (x, rest, refl)
