-- ===== src/Dispatcher/Readiness.antt =====
-- src/service_dispatcher.rs: the set of ready backends, against the connections of the tasks.
use nexus_net.Base.HashSet
use nexus_net.Base.{
  ◌≡◌, refl, ap, ◌∙◌, Bool, true, false, List, [], ◌∷◌, ◌++◌, Name, name_eq, name_beq, name_beq_iff,
  arith, Bool-cases, inl, inr, if◌then◌else◌,
}
use nexus_net.Dispatcher.Types.{BackendEvent, status, control}
use nexus_net.Dispatcher.Task.{
  Task, Phase, connecting, greeting, resting, gone, serving, Input, is_gone,
}
use nexus_net.Dispatcher.Step.{step, in_phase_step}
use nexus_net.Dispatcher.Router.{noted}
use nexus_net.Dispatcher.System.{emitted}
use nexus_net.Dispatcher.Tells.{is_serving, silent, step-Tells}

-- The set once the dispatcher has taken the events.
unfoldable pub ready_after : List BackendEvent → List Name → List Name
ready_after [] ready = ready
ready_after (status s ∷ events) ready = ready_after events (noted s ready)
ready_after (control service msg ∷ events) ready = ready_after events ready

pub ready_after-append :
    (xs ys : List BackendEvent) (ready : List Name)
    → ready_after (xs ++ ys) ready ≡ ready_after ys (ready_after xs ready)
unfolding ready_after
ready_after-append [] ys ready = refl
ready_after-append (status s ∷ xs) ys ready = ready_after-append xs ys (noted s ready)
ready_after-append (control service msg ∷ xs) ys ready = ready_after-append xs ys ready

ready_after-silent :
    (xs : List BackendEvent) (ready : List Name) → silent xs ≡ true → ready_after xs ready ≡ ready
unfolding ready_after
ready_after-silent [] ready h = refl
ready_after-silent (status s ∷ xs) ready h = absurd (ground arith)
ready_after-silent (control service msg ∷ xs) ready h = ready_after-silent xs ready h

contains-noted :
    (name j : Name) (b : Bool) (ready : List Name)
    → HashSet.contains (noted (record { service = name; ready = b }) ready) j
      ≡ (if name_beq name j then b else HashSet.contains ready j)
unfolding noted
contains-noted name j b ready =
    ground (arith, HashSet.contains-insert name j ready, HashSet.contains-remove name j ready)

-- A task has the name of its backend, and with the events that wait, unless it has ended, the set
-- says whether it is connected.
abbrev pub IsTrue : Name → List Name → Task → Type 0
IsTrue name ready t =
    (t.service ≡ name)
    × (is_gone t.phase ≡ false → HashSet.contains ready name ≡ is_serving t.phase)

gone_stays :
    (p : Phase) (input : Input) (t : Task)
    → t.phase ≡ p
    → is_gone p ≡ true
    → is_gone (in_phase_step p input t).0.phase ≡ true
unfolding in_phase_step
gone_stays gone input t here ended = ap is_gone here
gone_stays connecting input t here ended = absurd (ground arith)
gone_stays greeting input t here ended = absurd (ground arith)
gone_stays resting input t here ended = absurd (ground arith)
gone_stays (serving pending) input t here ended = absurd (ground arith)

step_gone :
    (input : Input) (t : Task) → is_gone t.phase ≡ true → is_gone (step input t).0.phase ≡ true
unfolding step
step_gone input t ended = gone_stays t.phase input t refl ended

-- What a step does to the set, at the name of its task and at others.
pub own-IsTrue :
    (name : Name) (ready : List Name) (input : Input) (t : Task)
    → IsTrue name ready t
    → IsTrue name (ready_after (emitted (step input t).1) ready) (step input t).0
unfolding ready_after
own-IsTrue name ready input t h = elim (step-Tells input t).1 [
  | inl (none', inl ended) ↦ ((step-Tells input t).0 ∙ h.0, λ alive. absurd (ground arith))
  | inl (none', inr still) ↦ (
    (step-Tells input t).0 ∙ h.0,
    λ alive. ground (
      arith,
      ready_after-silent (emitted (step input t).1) ready none',
      still,
      h.1,
      step_gone input t,
      Bool-cases (is_gone t.phase),
    ),
  )
  | inr (b, told, now) ↦ (
    (step-Tells input t).0 ∙ h.0,
    λ alive. ground (
      arith,
      ap (λ es. ready_after es ready) told,
      contains-noted t.service name b ready,
      name_beq_iff t.service name,
      h.0,
      now,
    ),
  )
]

pub others-eq :
    (j : Name) (ready : List Name) (input : Input) (t : Task)
    → name_beq t.service j ≡ false
    → HashSet.contains (ready_after (emitted (step input t).1) ready) j ≡ HashSet.contains ready j
unfolding ready_after
others-eq j ready input t other = elim (step-Tells input t).1 [
  | inl (none', now) ↦
      ap (λ r. HashSet.contains r j) (ready_after-silent (emitted (step input t).1) ready none')
  | inr (b, told, now) ↦
      ground (arith, ap (λ es. ready_after es ready) told, contains-noted t.service j b ready)
]
