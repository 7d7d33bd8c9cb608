-- ===== src/Base.antt =====
-- The names that every part shares: the libraries', passed on, and those of the children, which
-- model what the Rust code uses of its standard library (HashSet, HashMap, BTreeSet, Result, bytes).
mod Tests
mod Lists
mod Results
mod Names
pub mod HashSet
pub mod HashMap
pub mod BTreeSet
pub mod Bags
pub mod Tables
pub use Tests.*
pub use Lists.*
pub use Results.*
unfoldable pub use Names.{name_beq, name_ltb}
pub use Names.{Name, bytes, name_beq_iff, name_eq}
pub use Prim.Native.Nat.{ℕ, zero, suc, ◌+◌, ◌-◌, ◌*◌, ◌/◌, ◌%◌, ◌^◌, ◌≤◌, ◌<◌, min, max}
pub use mathlib.Core.Path.{◌≡◌, refl, sym, ap, subst, ◌∙◌}
pub use mathlib.Core.Logic.{◌≢◌, ◌↔◌, ◌⊎◌, inl, inr}
pub use mathlib.Core.Bool.{Bool, true, false, not, ◌&&◌, ◌||◌}
pub use mathlib.Core.Option.{Option, none, some}
pub use mathlib.Core.List.{List, [], ◌∷◌, ◌++◌, map, foldl}
pub use native.Mathlib.Omega.{arith}
