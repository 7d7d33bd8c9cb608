-- ===== src/Registry/Actor/Unbroken.antt =====
-- src/controller/service_registry.rs: runs of the actor without a `Reset`.
use nexus_net.Base.{
  ℕ, ◌-◌, ◌≡◌, ◌≢◌, ◌∙◌, subst, sym, List, [], ◌∷◌, ◌++◌, Name, length, All, All-imp, append-All,
}
use nexus_net.Registry.State.{
  RegistryState, reset, JobSpec, announce, withdraw, read_types, write_types, JobResult, announced,
  withdrawn, types_read, types_written, new,
}
use nexus_net.Registry.Frame.{replace_backend_ready-Keeps}
use nexus_net.Registry.Generations.{generation-handle, generation-plan, generation-apply}
use nexus_net.Registry.Plan.{plan}
use nexus_net.Registry.Planned.Justified.{Justified, plan-Justified}
use nexus_net.Registry.Scheduled.{
  IsScheduled, new-IsScheduled, handle-IsScheduled, apply_announced-IsScheduled,
  apply_withdrawn-IsScheduled, apply_types_read-IsScheduled, apply_types_written-IsScheduled,
}
use nexus_net.Registry.Scheduled.Rounds.{plan-IsScheduled}
use nexus_net.Registry.Scheduled.Readiness.{replace_backend_ready-IsScheduled}
use nexus_net.Registry.Types.{Json}
use nexus_net.Registry.Apply.{SyncConfig, apply}
use nexus_net.Registry.Actor.{
  Actor, ActorConfig, pump, job_limit, start_actor, ResultOf, Step, command, joined, lost,
  readiness,
}

-- Every event but a `Reset`.
abbrev pub IsNoReset : {json : Json} {a b : Actor} → Step json a b → Type 0
IsNoReset (command c cmd now later e) = cmd ≢ reset
IsNoReset (joined c before after job result now later e f g) = Unit {0}
IsNoReset (lost c before after job now e f) = Unit {0}
IsNoReset (readiness c ready now later e) = Unit {0}

pub data Run (json : Json) : Actor → Type 0 where
  started :
      {a : Actor} (c : ActorConfig) (ready : List Name) (now later : ℕ)
      → a ≡ start_actor c ready now later
      → Run json a
  next : {a b : Actor} → Run json a → (st : Step json a b) → IsNoReset st → Run json b

abbrev job_generation : JobSpec → ℕ
job_generation (announce g n k) = g
job_generation (withdraw g n k) = g
job_generation (read_types g) = g
job_generation (write_types g v) = g

abbrev Current : RegistryState → JobSpec → Type 0
Current s job = job_generation job ≡ s.generation

record IsTracked (a : Actor) : Type 0 where
  scheduled : (n : Name) → IsScheduled n a.state
  current : All (Current a.state) a.jobs

Justified-generation :
    (now : ℕ) (s : RegistryState) (job : JobSpec) → Justified now s job → Current s job
Justified-generation now s (announce g n k) j = j.0
Justified-generation now s (withdraw g n k) j = j.0
Justified-generation now s (read_types g) j = j.0
Justified-generation now s (write_types g v) j = j.0

pump-IsTracked : (c : ActorConfig) (now : ℕ) (a : Actor) → IsTracked a → IsTracked (pump c now a)
unfolding pump
pump-IsTracked c now a h =
    let slots = job_limit c - length a.jobs in
    let p = plan c.local_services now slots a.state in
    let same : p.state.generation ≡ a.state.generation =
      generation-plan c.local_services now slots a.state in
    record {
      scheduled = λ n. plan-IsScheduled n c.local_services now slots a.state (h.scheduled n);
      current =
          append-All (Current p.state) a.jobs p.jobs
            (All-imp a.jobs (λ job e. e ∙ sym same) h.current)
            (All-imp p.jobs (λ job j. Justified-generation now a.state job j ∙ sym same)
              (plan-Justified now a.state c.local_services slots));
    }

take_out-All :
    (P : JobSpec → Type 0) (before after : List JobSpec) (job : JobSpec)
    → All P (before ++ job ∷ after)
    → P job × All P (before ++ after)
take_out-All P [] after job h = (h.0, h.1)
take_out-All P (x ∷ xs) after job h =
    let (here, rest) = take_out-All P xs after job h.1 in (here, (h.0, rest))

-- A result of the current generation keeps the invariant.
apply-IsScheduled :
    (json : Json) (c : SyncConfig) (n : Name) (job : JobSpec) (r : JobResult) (now : ℕ)
    (s : RegistryState)
    → ResultOf job r
    → Current s job
    → IsScheduled n s
    → IsScheduled n (apply json c r now s)
unfolding apply
apply-IsScheduled json c n job (announced g m r) now s of cur h =
    apply_announced-IsScheduled n g m r now s h
apply-IsScheduled json c n (withdraw g m k) (withdrawn g' m' r) now s of cur h =
    rw (of.0 ∙ cur) (apply_withdrawn-IsScheduled n m' r now s h)
apply-IsScheduled json c n job (types_read g r) now s of cur h =
    apply_types_read-IsScheduled json c n g r now s h
apply-IsScheduled json c n job (types_written g r) now s of cur h =
    apply_types_written-IsScheduled json c n g r now s h
apply-IsScheduled json c n (announce _ _ _) (withdrawn g' m' r) now s of cur h = absurd of
apply-IsScheduled json c n (read_types _) (withdrawn g' m' r) now s of cur h = absurd of
apply-IsScheduled json c n (write_types _ _) (withdrawn g' m' r) now s of cur h = absurd of

module _ (json : Json) where
  Step-IsTracked : {a b : Actor} (st : Step json a b) → IsNoReset st → IsTracked a → IsTracked b
  Step-IsTracked {a} (command c cmd now later e) quiet h = subst IsTracked (sym e) (
      pump-IsTracked c later _ (record {
        scheduled = λ n. handle-IsScheduled n cmd now a.state (h.scheduled n);
        current =
            All-imp a.jobs (λ job cur. cur ∙ sym (generation-handle cmd now a.state quiet))
              h.current;
      }))
  Step-IsTracked {a} (joined c before after job result now later taken of e) quiet h =
      let (cur, rest) =
        take_out-All (Current a.state) before after job
          (subst (All (Current a.state)) taken h.current) in
      subst IsTracked (sym e) (
        pump-IsTracked c later _ (record {
          scheduled =
              λ n. apply-IsScheduled json c.sync n job result now a.state of cur (h.scheduled n);
          current =
              All-imp (before ++ after)
                (λ job cur. cur ∙ sym (generation-apply json c.sync result now a.state)) rest;
        }))
  Step-IsTracked {a} (lost c before after job now taken e) quiet h = subst IsTracked (sym e) (
      pump-IsTracked c now _ (record {
        scheduled = h.scheduled;
        current =
            (take_out-All (Current a.state) before after job
              (subst (All (Current a.state)) taken h.current)).1;
      }))
  Step-IsTracked {a} (readiness c ready now later e) quiet h = subst IsTracked (sym e) (
      pump-IsTracked c later _ (record {
        scheduled = λ n. replace_backend_ready-IsScheduled n ready now a.state (h.scheduled n);
        current =
            All-imp a.jobs
              (λ job cur. cur ∙ sym (replace_backend_ready-Keeps ready now a.state).generation)
              h.current;
      }))

  Run-IsTracked : {a : Actor} → Run json a → IsTracked a
  unfolding start_actor
  Run-IsTracked (started c ready now later e) = subst IsTracked (sym e) (
      pump-IsTracked c later _ (record {
        scheduled = λ n. replace_backend_ready-IsScheduled n ready now new (new-IsScheduled n);
        current = tt;
      }))
  Run-IsTracked (next r st quiet) = Step-IsTracked st quiet (Run-IsTracked r)

  -- After any events but a `Reset`, whatever the DHT answers: no service is announced and withdrawn at
  -- once; without a usable relay every announced service is marked for withdrawal; and an announced
  -- service whose backend is not ready has a withdrawal that is due, running (by its in-flight mark) or
  -- marked.
  pub Run-IsScheduled : {a : Actor} → Run json a → (n : Name) → IsScheduled n a.state
  Run-IsScheduled r n = (Run-IsTracked r).scheduled n
