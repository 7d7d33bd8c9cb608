-- ===== src/Registry/Stale.antt =====
-- `RegistryState::apply` on the result of a job that was started before the last `Reset`.
use nexus_net.Base.HashSet
use nexus_net.Base.HashMap
use nexus_net.Config.Schema.{LocalServiceEntry}
use nexus_net.Registry.Plan.{plan, local_names, is_later}
use nexus_net.Registry.Scheduled.{is_ready, is_announced}
use nexus_net.Registry.Planned.Distinct.{job_services}
use nexus_net.Registry.Planned.Started.{plan_skips, plan_starts}
use nexus_net.Registry.Planned.Progress.{plan_complete}
use nexus_net.Base.{
  ℕ, ◌≡◌, ◌≢◌, ◌<◌, sym, List, true, false, Name, name_eq, name_beq_iff, Result, arith,
}
use nexus_net.Registry.State.{
  RegistryState, relay_ready, JobResult, announced, withdrawn, types_read, types_written,
}
use nexus_net.Registry.Types.{Json}
use nexus_net.Registry.Apply.{
  SyncConfig, apply, apply_announced, apply_withdrawn, apply_types_read, apply_types_written,
}

abbrev pub generation_of : JobResult → ℕ
generation_of (announced g service r) = g
generation_of (withdrawn g service r) = g
generation_of (types_read g r) = g
generation_of (types_written g r) = g

-- The state without the in-flight mark of the service that the result is about.
abbrev pub unmarked : JobResult → RegistryState → RegistryState
unmarked (announced g service r) s = record s {
  announce_inflight = HashSet.remove service s.announce_inflight;
}
unmarked (withdrawn g service r) s = record s {
  withdraw_inflight = HashSet.remove service s.withdraw_inflight;
}
unmarked (types_read g r) s = s
unmarked (types_written g r) s = s

-- The result of a job of another generation changes nothing but the in-flight mark of its service.
-- That mark it clears, whichever job had set it.
pub stale-apply :
    (json : Json) (c : SyncConfig) (result : JobResult) (now : ℕ) (s : RegistryState)
    → generation_of result ≢ s.generation
    → apply json c result now s ≡ unmarked result s
unfolding apply apply_announced apply_withdrawn apply_types_read apply_types_written
stale-apply json c (announced g service r) now s h = ground arith
stale-apply json c (withdrawn g service r) now s h = ground arith
stale-apply json c (types_read g r) now s h = ground arith
stale-apply json c (types_written g r) now s h = ground arith

-- While an announcement of a service runs, `plan` starts no job of the service. If the result of an
-- announcement of another generation comes in meanwhile, it does: for a configured service that is
-- ready, not announced, not being withdrawn and not waiting for a later retry, on a bootstrapped node
-- whose relay is ready, with a slot left over, the next plan has a second job while the first runs.
pub stale-second_job :
    (services : List LocalServiceEntry) (json : Json) (c : SyncConfig) (g : ℕ) (n : Name)
    (r : Result Name (Unit {0})) (now later slots : ℕ) (s : RegistryState)
    → g ≢ s.generation
    → HashSet.contains s.announce_inflight n ≡ true
    → HashSet.contains s.withdraw_inflight n ≡ false
    → HashSet.contains (local_names services) n ≡ true
    → s.bootstrapped ≡ true
    → relay_ready s ≡ true
    → is_ready s n ≡ true
    → is_announced s n ≡ false
    → is_later later (HashMap.get s.announce_retry_at n) ≡ false
    → 0 < (plan services later slots (apply json c (announced g n r) now s)).slots
    → (HashSet.contains (job_services (plan services later slots s).jobs) n ≡ false)
      × (HashSet.contains
            (job_services (plan services later slots (apply json c (announced g n r) now s)).jobs)
            n
          ≡ true)
stale-second_job services json c g n r now later slots s other marked stays here b relay ready fresh
      due left =
    let t = unmarked (announced g n r) s in
    let same : apply json c (announced g n r) now s ≡ t =
      stale-apply json c (announced g n r) now s other in
    let slots_left : 0 < (plan services later slots t).slots = rw (sym same) left in
    (
      plan_skips services later slots s n (ground arith),
      rw same (
          plan_starts services later slots t n
            (ground (arith, HashSet.contains-remove n n s.announce_inflight, name_beq_iff n n))
            (plan_complete later n services slots t here b relay ready fresh due slots_left)),
    )
