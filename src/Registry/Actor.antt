-- ===== src/Registry/Actor.antt =====
-- `ServiceRegistryActor`: `pump`, and the branches of the `select!` in `run` as a step relation. The
-- scheduler chooses which branch runs, and the DHT what a job returns. A job that was aborted or
-- that panicked stays in the `JoinSet` until it is joined, and then changes nothing.
pub mod Reachable
pub mod Unbroken
use nexus_net.Base.{
  ℕ, ◌-◌, ◌≡◌, ◌≢◌, max, min, List, [], ◌∷◌, ◌++◌, Name, Result, length, Bool, true, false,
}
use nexus_net.Config.Schema.{LocalServiceEntry}
use nexus_net.Registry.State.{
  RegistryState, ServiceCommand, JobSpec, announce, withdraw, read_types, write_types, JobResult,
  announced, withdrawn, types_read, types_written, new,
}
use nexus_net.Registry.Commands.{handle, replace_backend_ready}
use nexus_net.Registry.Plan.{Planning, plan}
use nexus_net.Registry.Types.{Json}
use nexus_net.Registry.Apply.{SyncConfig, apply}

-- What the actor reads of the configuration.
pub record ActorConfig : Type 0 where
  pub sync : SyncConfig
  pub local_services : List LocalServiceEntry
  pub max_inflight : ℕ

pub record Actor : Type 0 where
  pub state : RegistryState
  pub jobs : List JobSpec

-- `registry_max_inflight_dht().clamp(1, 16)`
abbrev pub job_limit : ActorConfig → ℕ
job_limit c = min (max c.max_inflight 1) 16

unfoldable pub pump : ActorConfig → ℕ → Actor → Actor
pump c now a =
    let p = plan c.local_services now (job_limit c - length a.jobs) a.state in
    record { state = p.state; jobs = a.jobs ++ p.jobs }

-- `run` up to its loop: the readiness that is known at the start.
unfoldable pub start_actor : ActorConfig → List Name → ℕ → ℕ → Actor
start_actor c ready now later =
    pump c later (record { state = replace_backend_ready ready now new; jobs = [] })

-- A result that the job can deliver (`spawn`).
abbrev pub ResultOf : JobSpec → JobResult → Type 0
ResultOf (announce g n k) (announced h m r) = (h ≡ g) × (m ≡ n)
ResultOf (withdraw g n k) (withdrawn h m r) = (h ≡ g) × (m ≡ n)
ResultOf (read_types g) (types_read h r) = h ≡ g
ResultOf (write_types g v) (types_written h r) = h ≡ g
ResultOf _ _ = ⊥

-- A branch of the `select!`. The configuration may have changed since the last one; `later` is what the
-- clock says when `pump` reads it.
pub data Step (json : Json) (a b : Actor) : Type 0 where
  command :
      (c : ActorConfig) (cmd : ServiceCommand) (now later : ℕ)
      → b ≡ pump c later (record a { state = handle cmd now a.state })
      → Step json a b
  joined :
      (c : ActorConfig) (before after : List JobSpec) (job : JobSpec) (result : JobResult)
      (now later : ℕ)
      → a.jobs ≡ before ++ job ∷ after
      → ResultOf job result
      → b
        ≡ pump c later
            (record { state = apply json c.sync result now a.state; jobs = before ++ after })
      → Step json a b
  lost :
      (c : ActorConfig) (before after : List JobSpec) (job : JobSpec) (now : ℕ)
      → a.jobs ≡ before ++ job ∷ after
      → b ≡ pump c now (record a { jobs = before ++ after })
      → Step json a b
  readiness :
      (c : ActorConfig) (ready : List Name) (now later : ℕ)
      → b ≡ pump c later (record a { state = replace_backend_ready ready now a.state })
      → Step json a b

pub data Reach (json : Json) : Actor → Type 0 where
  started :
      {a : Actor} (c : ActorConfig) (ready : List Name) (now later : ℕ)
      → a ≡ start_actor c ready now later
      → Reach json a
  next : {a b : Actor} → Reach json a → Step json a b → Reach json b
