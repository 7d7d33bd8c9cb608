-- ===== src/Registry/Planned/Bounds.antt =====
-- src/controller/service_registry.rs: how many jobs `plan` starts.
use nexus_net.Base.{
  ℕ, ◌+◌, ◌≤◌, ◌<◌, ◌≡◌, false, List, Name, arith, length, length-append_one, Option-cases, inl,
  inr,
}
use nexus_net.Config.Schema.{LocalServiceEntry}
use nexus_net.Registry.State.{
  RegistryState, idle, ready_to_write, ReconcileState, withdraw, announce, read_types, write_types,
  service_key,
}
use nexus_net.Registry.Plan.{
  Planning, busy, plan, plan_reconcile, start_withdraw, start_announce, reconcile_round,
}
use nexus_net.Registry.PlanRule.{loops, starts_inv}

-- A slot is taken by each job of the loops.
abbrev Balanced : ℕ → Planning → Type 0
Balanced slots p = length p.jobs + p.slots ≡ slots

module _ (slots : ℕ) where
  start_withdraw-Balanced :
      (p : Planning) (k : Name)
      → busy p.state k ≡ false
      → 0 < p.slots
      → Balanced slots p
      → Balanced slots (start_withdraw p k)
  unfolding start_withdraw
  start_withdraw-Balanced p k _ left h =
      omega (arith, length-append_one p.jobs (withdraw p.state.generation k (service_key k)))

  start_announce-Balanced :
      (p : Planning) (k : Name)
      → busy p.state k ≡ false
      → 0 < p.slots
      → Balanced slots p
      → Balanced slots (start_announce p k)
  unfolding start_announce
  start_announce-Balanced p k _ left h =
      omega (arith, length-append_one p.jobs (announce p.state.generation k (service_key k)))

length-reconcile_round-le :
    (now : ℕ) (r : ReconcileState) (p : Planning)
    → length (reconcile_round now r p).jobs ≤ length p.jobs + 1
unfolding reconcile_round
length-reconcile_round-le now idle p =
    ground (arith, length-append_one p.jobs (read_types p.state.generation))
length-reconcile_round-le now ready_to_write p = elim (Option-cases p.state.pending_types_write) [
  | inl e ↦ rw (e, reconcile_round) (omega arith)
  | inr (v, e) ↦
      rw (e, reconcile_round)
        (omega (arith, length-append_one p.jobs (write_types p.state.generation v)))
]
length-reconcile_round-le now _ p = omega arith

-- `plan` starts at most as many jobs as there are free slots.
pub length-plan-le :
    (services : List LocalServiceEntry) (now slots : ℕ) (s : RegistryState)
    → length (plan services now slots s).jobs ≤ slots
unfolding plan plan_reconcile
length-plan-le services now slots s =
    let p = loops services now slots s in
    ground (
      arith,
      starts_inv (Balanced slots) (start_withdraw-Balanced slots) (start_announce-Balanced slots)
          services now slots s (omega arith),
      length-reconcile_round-le now p.state.reconcile p,
    )
