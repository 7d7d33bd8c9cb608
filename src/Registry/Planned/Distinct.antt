-- ===== src/Registry/Planned/Distinct.antt =====
-- src/controller/service_registry.rs: which services the jobs of a plan are about.
use nexus_net.Base.HashSet
use nexus_net.Base.{
  ℕ, ◌<◌, ltb, Option-cases, inl, inr, ◌≡◌, refl, true, false, ◌||◌, List, [], ◌∷◌, ◌++◌, Name,
  name_eq, name_beq, name_beq_iff, arith,
}
use nexus_net.Config.Schema.{LocalServiceEntry}
use nexus_net.Registry.State.{
  service_key, RegistryState, JobSpec, announce, withdraw, read_types, write_types, ReconcileState,
  idle, ready_to_write,
}
use nexus_net.Registry.Plan.{
  Planning, plan, plan_reconcile, busy, start_withdraw, start_announce, reconcile_round,
}
use nexus_net.Registry.PlanRule.{loops, starts_inv, when_inv}
use mathlib.Core.List.{append-nil}
use nexus_net.Registry.Scheduled.{◌implies◌}

-- The services that the jobs announce or withdraw.
abbrev pub job_services : List JobSpec → List Name
job_services [] = []
job_services (announce g n k ∷ jobs) = n ∷ job_services jobs
job_services (withdraw g n k ∷ jobs) = n ∷ job_services jobs
job_services (read_types g ∷ jobs) = job_services jobs
job_services (write_types g v ∷ jobs) = job_services jobs

abbrev pub IsDistinct : List Name → Type 0
IsDistinct [] = Unit {0}
IsDistinct (x ∷ xs) = (HashSet.contains xs x ≡ false) × IsDistinct xs

job_services-append :
    (xs ys : List JobSpec) → job_services (xs ++ ys) ≡ job_services xs ++ job_services ys
job_services-append [] ys = refl
job_services-append (announce g n k ∷ xs) ys = cc (job_services-append xs ys)
job_services-append (withdraw g n k ∷ xs) ys = cc (job_services-append xs ys)
job_services-append (read_types g ∷ xs) ys = job_services-append xs ys
job_services-append (write_types g v ∷ xs) ys = job_services-append xs ys

append_one-IsDistinct :
    (xs : List Name) (k : Name)
    → HashSet.contains xs k ≡ false
    → IsDistinct xs
    → IsDistinct (xs ++ k ∷ [])
unfolding HashSet.contains
append_one-IsDistinct [] k new h = (refl, tt)
append_one-IsDistinct (x ∷ xs) k new h = ground (
  arith,
  HashSet.contains-append xs (k ∷ []) x,
  name_beq_iff x k,
  name_beq_iff k x,
  append_one-IsDistinct xs k,
)

-- The jobs are about different services, each of them with a job in flight.
record Separate (p : Planning) : Type 0 where
  distinct : IsDistinct (job_services p.jobs)
  marked : (n : Name) → (HashSet.contains (job_services p.jobs) n implies busy p.state n) ≡ true

append_one-Separate :
    (p : Planning) (k : Name) (job : JobSpec)
    → job_services (job ∷ []) ≡ k ∷ []
    → busy p.state k ≡ false
    → Separate p
    → IsDistinct (job_services (p.jobs ++ job ∷ []))
append_one-Separate p k job e free h =
    rw (job_services-append p.jobs (job ∷ []), e)
      (append_one-IsDistinct (job_services p.jobs) k (ground (arith, h.marked k)) h.distinct)

pub contains-append_one :
    (p : Planning) (k n : Name) (job : JobSpec)
    → job_services (job ∷ []) ≡ k ∷ []
    → HashSet.contains (job_services (p.jobs ++ job ∷ [])) n
      ≡ (HashSet.contains (job_services p.jobs) n || name_beq k n)
unfolding HashSet.contains
contains-append_one p k n job e =
    rw (job_services-append p.jobs (job ∷ []), e)
      (ground (arith, HashSet.contains-append (job_services p.jobs) (k ∷ []) n))

start_withdraw-Separate :
    (p : Planning) (k : Name)
    → busy p.state k ≡ false
    → 0 < p.slots
    → Separate p
    → Separate (start_withdraw p k)
unfolding start_withdraw
start_withdraw-Separate p k free _ h =
    let job = withdraw p.state.generation k (service_key k) in
    record {
      distinct = append_one-Separate p k job refl free h;
      marked = λ n. ground (
        arith,
        h.marked n,
        contains-append_one p k n job,
        HashSet.contains-insert k n p.state.withdraw_inflight,
      );
    }

start_announce-Separate :
    (p : Planning) (k : Name)
    → busy p.state k ≡ false
    → 0 < p.slots
    → Separate p
    → Separate (start_announce p k)
unfolding start_announce
start_announce-Separate p k free _ h =
    let job = announce p.state.generation k (service_key k) in
    record {
      distinct = append_one-Separate p k job refl free h;
      marked = λ n. ground (
        arith,
        h.marked n,
        contains-append_one p k n job,
        HashSet.contains-insert k n p.state.announce_inflight,
      );
    }

-- The last step adds no job that is about a service.
append_other-eq :
    (xs : List JobSpec) (job : JobSpec)
    → job_services (job ∷ []) ≡ []
    → job_services (xs ++ job ∷ []) ≡ job_services xs
append_other-eq xs job e = rw (job_services-append xs (job ∷ []), e) (append-nil _)

pub job_services-reconcile_round :
    (now : ℕ) (r : ReconcileState) (p : Planning)
    → job_services (reconcile_round now r p).jobs ≡ job_services p.jobs
unfolding reconcile_round
job_services-reconcile_round now idle p =
    ground (arith, append_other-eq p.jobs (read_types p.state.generation) refl)
job_services-reconcile_round now ready_to_write p =
    elim (Option-cases p.state.pending_types_write) [
      | inl e ↦ rw (e, reconcile_round)
      | inr (v, e) ↦
          rw (e, reconcile_round) (append_other-eq p.jobs (write_types p.state.generation v) refl)
    ]
job_services-reconcile_round now _ p = refl

-- No two jobs of one plan are about the same service.
pub plan-IsDistinct :
    (services : List LocalServiceEntry) (now slots : ℕ) (s : RegistryState)
    → IsDistinct (job_services (plan services now slots s).jobs)
unfolding plan plan_reconcile HashSet.contains
plan-IsDistinct services now slots s =
    let p = loops services now slots s in
    let h =
      starts_inv Separate start_withdraw-Separate start_announce-Separate services now slots s
        (record { distinct = tt; marked = λ n. refl }) in
    when_inv (λ (q : Planning). IsDistinct (job_services q.jobs)) (ltb 0 p.slots) _ _
      (rw (job_services-reconcile_round now p.state.reconcile p) h.distinct) h.distinct
