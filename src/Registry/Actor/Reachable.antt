-- ===== src/Registry/Actor/Reachable.antt =====
-- What holds of the actor after every sequence of events.
use nexus_net.Base.{
  ℕ, ◌+◌, ◌-◌, ◌≤◌, ◌≡◌, subst, sym, ap, List, ◌∷◌, ◌++◌, Name, length, length-append, arith,
}
use nexus_net.Registry.State.{JobSpec, new}
use nexus_net.Registry.Plan.{plan}
use nexus_net.Registry.Types.{Json}
use nexus_net.Registry.Planned.Bounds.{length-plan-le}
use nexus_net.Registry.Synced.{
  IsSynced, new-IsSynced, handle-IsSynced, replace_backend_ready-IsSynced, plan-IsSynced,
  apply-IsSynced,
}
use nexus_net.Registry.Actor.{
  Actor, ActorConfig, pump, job_limit, start_actor, Step, command, joined, lost, readiness, Reach,
  started, next,
}

-- At most 16 jobs run, and the reconciliation is in a sound state.
pub record IsSteady (a : Actor) : Type 0 where
  pub bounded : length a.jobs ≤ 16
  pub synced : IsSynced a.state

pump-IsSteady : (c : ActorConfig) (now : ℕ) (a : Actor) → IsSteady a → IsSteady (pump c now a)
unfolding pump
pump-IsSteady c now a h =
    let slots = job_limit c - length a.jobs in
    record {
      bounded = omega (
        arith,
        length-append a.jobs (plan c.local_services now slots a.state).jobs,
        length-plan-le c.local_services now slots a.state,
        h.bounded,
      );
      synced = plan-IsSynced c.local_services now slots a.state h.synced;
    }

-- Taking a job out leaves fewer.
length-take_out :
    (before after : List JobSpec) (job : JobSpec)
    → length (before ++ job ∷ after) ≡ length (before ++ after) + 1
length-take_out before after job =
    omega (arith, length-append before (job ∷ after), length-append before after)

Step-IsSteady : (json : Json) {a b : Actor} → Step json a b → IsSteady a → IsSteady b
Step-IsSteady json {a} (command c cmd now later e) h = subst IsSteady (sym e) (
    pump-IsSteady c later _
      (record { bounded = h.bounded; synced = handle-IsSynced cmd now a.state h.synced }))
Step-IsSteady json {a} (joined c before after job result now later taken _ e) h =
    subst IsSteady (sym e) (
      pump-IsSteady c later _ (record {
        bounded = omega (arith, h.bounded, ap length taken, length-take_out before after job);
        synced = apply-IsSynced json c.sync result now a.state h.synced;
      }))
Step-IsSteady json {a} (lost c before after job now taken e) h = subst IsSteady (sym e) (
    pump-IsSteady c now _ (record {
      bounded = omega (arith, h.bounded, ap length taken, length-take_out before after job);
      synced = h.synced;
    }))
Step-IsSteady json {a} (readiness c ready now later e) h = subst IsSteady (sym e) (
    pump-IsSteady c later _ (record {
      bounded = h.bounded;
      synced = replace_backend_ready-IsSynced ready now a.state h.synced;
    }))

start_actor-IsSteady :
    (c : ActorConfig) (ready : List Name) (now later : ℕ) → IsSteady (start_actor c ready now later)
unfolding start_actor
start_actor-IsSteady c ready now later = pump-IsSteady c later _ (record {
  bounded = omega arith;
  synced = replace_backend_ready-IsSynced ready now new new-IsSynced;
})

-- After any events, whatever the DHT answers, at most 16 jobs run, a value is kept for writing
-- exactly in the state that writes it, and a bootstrapped registry at rest has a next round.
pub Reach-IsSteady : (json : Json) {a : Actor} → Reach json a → IsSteady a
Reach-IsSteady json (started c ready now later e) =
    subst IsSteady (sym e) (start_actor-IsSteady c ready now later)
Reach-IsSteady json (next r st) = Step-IsSteady json st (Reach-IsSteady json r)
