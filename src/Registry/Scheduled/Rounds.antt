-- ===== src/Registry/Scheduled/Rounds.antt =====
-- src/controller/service_registry.rs: the invariant of each service and `plan`.
use nexus_net.Base.HashSet
use nexus_net.Base.HashMap
use nexus_net.Base.{ℕ, ◌≡◌, false, List, Name, name_eq, name_beq_iff, arith}
use nexus_net.Config.Schema.{LocalServiceEntry}
use nexus_net.Registry.State.{RegistryState, ReconcileState, idle, ready_to_write}
use nexus_net.Registry.Plan.{
  Planning, plan, start_withdraw, withdraw_round, start_announce, retry_round, local_round,
  reconcile_round,
}
use nexus_net.Registry.PlanRule.{plan_inv}
use nexus_net.Registry.Scheduled.{IsScheduled}

module _ (n : Name) where
  withdraw_round-IsScheduled :
      (p : Planning) (service : Name)
      → IsScheduled n p.state
      → IsScheduled n (withdraw_round p service).state
  unfolding withdraw_round start_withdraw
  withdraw_round-IsScheduled p service h = ground (
    arith,
    name_beq_iff service n,
    HashMap.get-remove service n p.state.withdraw_deadline,
    HashSet.contains-insert service n p.state.withdraw_inflight,
  )

  start_announce-IsScheduled :
      (p : Planning) (service : Name)
      → HashSet.contains p.state.withdraw_inflight service ≡ false
      → IsScheduled n p.state
      → IsScheduled n (start_announce p service).state
  unfolding start_announce
  start_announce-IsScheduled p service free h =
      ground
        (arith, name_beq_iff service n, HashSet.contains-insert service n p.state.announce_inflight)

  retry_round-IsScheduled :
      (p : Planning) (service : Name)
      → IsScheduled n p.state
      → IsScheduled n (retry_round p service).state
  unfolding retry_round
  retry_round-IsScheduled p service h = ground (arith, start_announce-IsScheduled p service)

  local_round-IsScheduled :
      (now : ℕ) (p : Planning) (service : Name)
      → IsScheduled n p.state
      → IsScheduled n (local_round now p service).state
  unfolding local_round
  local_round-IsScheduled now p service h = ground (arith, start_announce-IsScheduled p service)

  reconcile_round-IsScheduled :
      (now : ℕ) (r : ReconcileState) (p : Planning)
      → IsScheduled n p.state
      → IsScheduled n (reconcile_round now r p).state
  unfolding reconcile_round
  reconcile_round-IsScheduled now idle p h = ground arith
  reconcile_round-IsScheduled now ready_to_write p h = ground arith
  reconcile_round-IsScheduled now _ p h = h

  pub plan-IsScheduled :
      (services : List LocalServiceEntry) (now slots : ℕ) (s : RegistryState)
      → IsScheduled n s
      → IsScheduled n (plan services now slots s).state
  plan-IsScheduled services now slots s h =
      plan_inv (λ p. IsScheduled n p.state) services now (λ p k v. withdraw_round-IsScheduled p k v)
        (λ p k v. retry_round-IsScheduled p k v) (λ p k v. local_round-IsScheduled now p k v)
        (λ p v. reconcile_round-IsScheduled now p.state.reconcile p v) slots s h
