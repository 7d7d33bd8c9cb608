-- ===== src/Tests/Registry.antt =====
-- src/controller/service_registry.rs at concrete inputs.
use nexus_net.Base.HashSet
use nexus_net.Base.{ℕ, ◌≡◌, refl, true, false, List, [], ◌∷◌, name_eq, ok, length, All, arith}
use nexus_net.Base.BTreeSet
use nexus_net.Base.HashMap
use nexus_net.Base.{name_beq}
use nexus_net.Auth.Naming.{is_valid_service_name, is_valid_network_name}
use nexus_net.Registry.State.{RegistryState, announced, refresh_types, bootstrap_completed}
use nexus_net.Registry.Commands.{handle, mark_types_dirty}
use nexus_net.Registry.Plan.{
  plan, busy, plan_reconcile, plan_local, plan_retries, plan_withdrawals, withdrawals_due,
  retries_due, local_round, start_announce, reconcile_round, local_names,
}
use nexus_net.Registry.Types.{encode_types_limited}
use nexus_net.Registry.Types.Longest.{Longest, encode_types_limited-Longest}
use nexus_net.Registry.Apply.{SyncConfig, apply, apply_announced}
use nexus_net.Registry.Scheduled.{IsScheduled}
use nexus_net.Registry.Stale.{stale-second_job}
use nexus_net.Registry.Planned.Distinct.{IsDistinct, job_services, plan-IsDistinct}
use nexus_net.Registry.Planned.Justified.{Justified, plan-Justified}
use nexus_net.Registry.Planned.Progress.{plan_complete}
use nexus_net.Registry.Actor.{Actor, pump, start_actor, Step, command, Reach}
use nexus_net.Registry.Actor.Reachable.{IsSteady, Reach-IsSteady}
use nexus_net.Registry.Actor.Unbroken.{Run, Run-IsScheduled}
use nexus_net.Registry.Actor
use nexus_net.Registry.Actor.Unbroken
use nexus_net.Tests.Data.{
  web, chat, local_two, flat_json, flat-Encodes, flat-Grows, two_ready, actor_config,
}

-- The plan for two ready services with three free slots announces both and reads the index.
two_jobs : length (plan local_two 10 3 (handle refresh_types 5 two_ready)).jobs ≡ 3
unfolding handle HashSet.contains HashMap.get local_names is_valid_service_name
    is_valid_network_name plan plan_reconcile plan_local plan_retries plan_withdrawals name_beq
    withdrawals_due retries_due local_round start_announce HashSet.insert HashMap.remove
    reconcile_round mark_types_dirty BTreeSet.sort BTreeSet.dedup
two_jobs = refl

plan-Justified_example : All (Justified 10 two_ready) (plan local_two 10 3 two_ready).jobs
plan-Justified_example = plan-Justified 10 two_ready local_two 3

plan-IsDistinct_example : IsDistinct (job_services (plan local_two 10 3 two_ready).jobs)
plan-IsDistinct_example = plan-IsDistinct local_two 10 3 two_ready

plan_complete_example : busy (plan local_two 10 3 two_ready).state chat ≡ true
unfolding HashSet.contains HashMap.get local_names is_valid_service_name is_valid_network_name plan
    plan_reconcile plan_local plan_retries plan_withdrawals name_beq withdrawals_due retries_due
    local_round start_announce HashSet.insert HashMap.remove reconcile_round BTreeSet.sort
    BTreeSet.dedup
plan_complete_example =
    plan_complete 10 chat local_two 3 two_ready refl refl refl refl refl refl (grind arith)

encode_types_limited-Longest_example :
    (value : List ℕ) × (included : ℕ) × (encode_types_limited flat_json (web ∷ chat ∷ []) 6
      ≡ ok (value, included))
    × Longest flat_json flat-Encodes (web ∷ chat ∷ []) 6 value included
encode_types_limited-Longest_example =
    encode_types_limited-Longest flat_json flat-Encodes (web ∷ chat ∷ []) 6
      (flat-Grows (web ∷ chat ∷ []))

-- The actor once it has been told that the bootstrap is done.
abbrev booted : Actor
booted = pump actor_config 21 (record (start_actor actor_config (web ∷ []) 10 11) {
  state = handle bootstrap_completed 20 (start_actor actor_config (web ∷ []) 10 11).state;
})

Reach-IsSteady_example : IsSteady booted
Reach-IsSteady_example = Reach-IsSteady flat_json (
    Actor.next (Actor.started actor_config (web ∷ []) 10 11 refl)
      (command actor_config bootstrap_completed 20 21 refl))

Run-IsScheduled_example : IsScheduled web booted.state
Run-IsScheduled_example =
    Run-IsScheduled flat_json
      (Unbroken.next (Unbroken.started actor_config (web ∷ []) 10 11 refl)
        (command actor_config bootstrap_completed 20 21 refl) (λ e. ground arith))
      web

abbrev sync_config : SyncConfig
sync_config = actor_config.sync

-- The result of a job of generation 0 comes in at generation 1.
abbrev next_life : RegistryState
next_life = record two_ready {
  generation = 1;
  announce_inflight = web ∷ [];
  withdraw_inflight = chat ∷ [];
}

stale-second_job_example :
    (HashSet.contains (job_services (plan local_two 31 3 next_life).jobs) web ≡ false)
    × (HashSet.contains
          (job_services
            (plan local_two 31 3
              (apply flat_json sync_config (announced 0 web (ok tt)) 30 next_life)).jobs)
          web
        ≡ true)
unfolding HashSet.contains HashMap.get local_names is_valid_service_name is_valid_network_name plan
    plan_reconcile plan_local plan_retries plan_withdrawals name_beq withdrawals_due retries_due
    local_round start_announce HashSet.insert HashMap.remove reconcile_round BTreeSet.sort
    BTreeSet.dedup apply apply_announced HashSet.remove
stale-second_job_example =
    stale-second_job local_two flat_json sync_config 0 web (ok tt) 30 31 3 next_life
      (λ e. ground arith) refl refl refl refl refl refl refl refl (grind arith)
