-- ===== src/Base/Names.antt =====
-- `String` and `Vec<u8>` as their bytes, with the byte-wise equality and order of Rust.
use Prim.Native.Nat.{ℕ}
use Prim.Native.Char.{code}
use Prim.Native.String.{String}
use mathlib.Core.Path.{◌≡◌}
use mathlib.Core.Logic.{◌↔◌}
use mathlib.Core.Bool.{Bool, true, false, ◌&&◌}
use mathlib.Core.List.{List, [], ◌∷◌}
use native.Mathlib.Omega.{arith}
use nexus_net.Base.Tests.{Eq, if◌then◌else◌, ltb, ◌==◌}

-- The UTF-8 bytes of a text.
abbrev pub Name : Type 0
Name = List ℕ

-- The bytes of an ASCII literal.
abbrev pub bytes : String → Name
bytes String.[] = []
bytes (String.◌∷◌ c s) = code c ∷ bytes s

unfoldable pub name_beq : Name → Name → Bool
name_beq [] [] = true
name_beq [] (y ∷ ys) = false
name_beq (x ∷ xs) [] = false
name_beq (x ∷ xs) (y ∷ ys) = x == y && name_beq xs ys

pub name_beq_iff : (a b : Name) → (name_beq a b ≡ true) ↔ (a ≡ b)
unfolding name_beq
name_beq_iff [] [] = ground arith
name_beq_iff [] (y ∷ ys) = ground arith
name_beq_iff (x ∷ xs) [] = ground arith
name_beq_iff (x ∷ xs) (y ∷ ys) = ground (arith, name_beq_iff xs ys)

instance abbrev pub name_eq : Eq Name
name_eq = record { beq = name_beq; beq_iff = name_beq_iff }

-- The lexicographic order of `str`.
unfoldable pub name_ltb : Name → Name → Bool
name_ltb [] [] = false
name_ltb [] (y ∷ ys) = true
name_ltb (x ∷ xs) [] = false
name_ltb (x ∷ xs) (y ∷ ys) = if x == y then name_ltb xs ys else ltb x y
