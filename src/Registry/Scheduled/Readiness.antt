-- ===== src/Registry/Scheduled/Readiness.antt =====
-- src/controller/service_registry.rs: the invariant of each service and `replace_backend_ready`.
use nexus_net.Base.HashSet
use nexus_net.Base.HashMap
use nexus_net.Base.{
  ℕ, ◌+◌, ◌≡◌, refl, Bool, not, ◌||◌, ◌&&◌, List, [], ◌∷◌, Name, name_eq, name_beq_iff, arith,
  foldl,
}
use nexus_net.Registry.State.{RegistryState, withdraw_grace}
use nexus_net.Registry.Commands.{replace_backend_ready, became_ready, became_unready, difference}
use nexus_net.Registry.Frame.{became_ready-Keeps, became_unready-Keeps}
use nexus_net.Registry.Scheduled.{IsScheduled}

abbrev has_deadline : RegistryState → Name → Bool
has_deadline s n = HashMap.contains_key s.withdraw_deadline n

became_ready-deadline :
    (n : Name) (l : List Name) (s : RegistryState)
    → has_deadline (foldl became_ready s l) n ≡ (not (HashSet.contains l n) && has_deadline s n)
unfolding became_ready HashSet.contains
became_ready-deadline n [] s = refl
became_ready-deadline n (x ∷ xs) s = ground (
  arith,
  became_ready-deadline n xs (became_ready s x),
  name_beq_iff x n,
  HashMap.get-remove x n s.withdraw_deadline,
)

became_unready-deadline :
    (n : Name) (now : ℕ) (l : List Name) (s : RegistryState)
    → has_deadline (foldl (became_unready now) s l) n
      ≡ (HashSet.contains l n && HashSet.contains s.announced n || has_deadline s n)
unfolding became_unready HashSet.contains
became_unready-deadline n now [] s = refl
became_unready-deadline n now (x ∷ xs) s = ground (
  arith,
  became_unready-deadline n now xs (became_unready now s x),
  name_beq_iff x n,
  HashMap.get-or_insert x n (now + withdraw_grace) s.withdraw_deadline,
)

pub contains-difference :
    (a b : List Name) (n : Name)
    → HashSet.contains (difference a b) n ≡ (not (HashSet.contains b n) && HashSet.contains a n)
contains-difference a b n = HashSet.contains-select (λ k. not (HashSet.contains b k)) a n

pub replace_backend_ready-IsScheduled :
    (n : Name) (ready : List Name) (now : ℕ) (s : RegistryState)
    → IsScheduled n s
    → IsScheduled n (replace_backend_ready ready now s)
unfolding replace_backend_ready
replace_backend_ready-IsScheduled n ready now s h =
    let t = record s { backend_ready = ready } in
    let entered = foldl became_ready t (difference ready s.backend_ready) in
    ground (
      arith,
      became_ready-Keeps (difference ready s.backend_ready) t,
      became_unready-Keeps now (difference s.backend_ready ready) entered,
      became_ready-deadline n (difference ready s.backend_ready) t,
      became_unready-deadline n now (difference s.backend_ready ready) entered,
      contains-difference ready s.backend_ready n,
      contains-difference s.backend_ready ready n,
    )
