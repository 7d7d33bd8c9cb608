-- ===== src/Registry/Planned/Started.antt =====
-- src/controller/service_registry.rs: which jobs a plan starts for a service, by its in-flight marks.
use nexus_net.Base.HashSet
use nexus_net.Base.{
  ℕ, ◌<◌, ◌≡◌, refl, true, false, ◌||◌, List, [], ◌∷◌, Name, name_eq, name_beq_iff, arith, All, ltb,
}
use nexus_net.Config.Schema.{LocalServiceEntry}
use nexus_net.Registry.State.{
  RegistryState, JobSpec, announce, withdraw, read_types, write_types, service_key,
}
use nexus_net.Registry.Plan.{Planning, plan, plan_reconcile, busy, start_withdraw, start_announce}
use nexus_net.Registry.PlanRule.{loops, starts_inv, when_inv}
use nexus_net.Registry.Scheduled.{◌implies◌}
use nexus_net.Registry.Planned.Justified.{Justified, plan-Justified}
use nexus_net.Registry.Planned.Distinct.{
  job_services, contains-append_one, job_services-reconcile_round,
}
use nexus_net.Registry.Planned.Progress.{reconcile_round_keeps}

-- No job of a plan is about a service that had a job in flight before.
busy-Justified :
    (now : ℕ) (n : Name) (s : RegistryState) (jobs : List JobSpec)
    → busy s n ≡ true
    → All (Justified now s) jobs
    → HashSet.contains (job_services jobs) n ≡ false
unfolding HashSet.contains
busy-Justified now n s [] b h = refl
busy-Justified now n s (announce g k key ∷ jobs) b h =
    ground (arith, name_beq_iff k n, h.0, busy-Justified now n s jobs b h.1)
busy-Justified now n s (withdraw g k key ∷ jobs) b h =
    ground (arith, name_beq_iff k n, h.0, busy-Justified now n s jobs b h.1)
busy-Justified now n s (read_types g ∷ jobs) b h = busy-Justified now n s jobs b h.1
busy-Justified now n s (write_types g v ∷ jobs) b h = busy-Justified now n s jobs b h.1

pub plan_skips :
    (services : List LocalServiceEntry) (now slots : ℕ) (s : RegistryState) (n : Name)
    → busy s n ≡ true
    → HashSet.contains (job_services (plan services now slots s).jobs) n ≡ false
plan_skips services now slots s n b =
    busy-Justified now n s (plan services now slots s).jobs b (plan-Justified now s services slots)

-- A service that got a job in flight got it from a job of the plan.
abbrev IsStarted : RegistryState → Planning → Type 0
IsStarted s p =
    (n : Name)
    → (busy p.state n implies (busy s n || HashSet.contains (job_services p.jobs) n)) ≡ true

module _ (s : RegistryState) where
  start_withdraw-IsStarted :
      (p : Planning) (k : Name)
      → busy p.state k ≡ false
      → 0 < p.slots
      → IsStarted s p
      → IsStarted s (start_withdraw p k)
  unfolding start_withdraw
  start_withdraw-IsStarted p k free left h = λ n. ground (
    arith,
    h n,
    contains-append_one p k n (withdraw p.state.generation k (service_key k)) refl,
    HashSet.contains-insert k n p.state.withdraw_inflight,
  )

  start_announce-IsStarted :
      (p : Planning) (k : Name)
      → busy p.state k ≡ false
      → 0 < p.slots
      → IsStarted s p
      → IsStarted s (start_announce p k)
  unfolding start_announce
  start_announce-IsStarted p k free left h = λ n. ground (
    arith,
    h n,
    contains-append_one p k n (announce p.state.generation k (service_key k)) refl,
    HashSet.contains-insert k n p.state.announce_inflight,
  )

plan-IsStarted :
    (services : List LocalServiceEntry) (now slots : ℕ) (s : RegistryState)
    → IsStarted s (plan services now slots s)
unfolding plan plan_reconcile HashSet.contains
plan-IsStarted services now slots s =
    let p = loops services now slots s in
    let h : IsStarted s p =
      starts_inv (IsStarted s) (start_withdraw-IsStarted s) (start_announce-IsStarted s) services
        now slots s (λ n. ground arith) in
    when_inv (IsStarted s) (ltb 0 p.slots) _ _
      (λ n. ground (
        arith,
        h n,
        job_services-reconcile_round now p.state.reconcile p,
        reconcile_round_keeps now n p.state.reconcile p,
      ))
      h

-- A service without a job in flight that is busy after the plan has a job of the plan.
pub plan_starts :
    (services : List LocalServiceEntry) (now slots : ℕ) (s : RegistryState) (n : Name)
    → busy s n ≡ false
    → busy (plan services now slots s).state n ≡ true
    → HashSet.contains (job_services (plan services now slots s).jobs) n ≡ true
plan_starts services now slots s n free taken =
    ground (arith, plan-IsStarted services now slots s n)
