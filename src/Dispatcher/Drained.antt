-- ===== src/Dispatcher/Drained.antt =====
-- src/service_dispatcher.rs: a backend task that ends.
use nexus_net.Base.Bags.{count, count-append}
use nexus_net.Base.{
  ◌+◌, ◌≡◌, refl, ap, Bool, ◌||◌, true, false, Option, List, [], ◌∷◌, ◌++◌, Name, Result, arith,
  Bool-cases, Result-cases, inl, inr, nat_eq,
}
use nexus_net.Sidecar.Message.{Message}
use nexus_net.Dispatcher.Types.{Channel}
use nexus_net.Dispatcher.Task.{
  Task, Phase, connecting, greeting, resting, gone, serving, connected, greeted, shut, is_gone,
  leave, new_task, handshake,
}
use nexus_net.Dispatcher.Step.{
  step, in_phase_step, on_connecting, on_greeting, on_serving, on_resting,
}
use nexus_net.Dispatcher.Runs.{Event, happen, act, run, held, settled, accepted, queued, in_phase}
use nexus_net.Dispatcher.Conserved.{IsTable, Keeps, settled-append}
use nexus_net.Dispatcher.Kept.{act-Keeps}
use nexus_net.Dispatcher.Sound.{run-new_task-IsSound}

-- The reply channels that a task takes over in a run.
unfoldable pub taken : List Event → Task → List Channel
taken [] t = []
taken (event ∷ events) t = accepted event t ++ taken events (act event t).0

bare_gone : (p : Phase) → is_gone p ≡ true → in_phase p ≡ []
bare_gone gone ended = refl
bare_gone connecting ended = refl
bare_gone greeting ended = refl
bare_gone resting ended = refl
bare_gone (serving pending) ended = absurd (ground arith)

held_gone : (t : Task) → is_gone t.phase ≡ true → t.queue ≡ [] → held t ≡ []
unfolding held
held_gone t ended empty = ground (arith, bare_gone t.phase ended, ap queued empty)

module _ (c : Channel) where
  run-Keeps :
      (events : List Event) (t : Task)
      → IsTable t.phase
      → Keeps c (count c (taken events t) + count c (held t)) (run events t)
  unfolding taken run
  run-Keeps [] t m = record { same = omega arith; table = m }
  run-Keeps (event ∷ events) t m =
      let k = act-Keeps c event t m in
      let next = act event t in
      let later = run-Keeps events next.0 k.table in
      record {
        same = ground (
          arith,
          k.same,
          later.same,
          count-append c (accepted event t) (taken events next.0),
          settled-append c next.1 (run events next.0).1,
        );
        table = later.table;
      }

  ended_settled :
      (service : Name) (events : List Event)
      → is_gone (run events (new_task service)).0.phase ≡ true
      → count c (settled (run events (new_task service)).1)
        ≡ count c (taken events (new_task service))
  unfolding held new_task
  ended_settled service events ended =
      let s = run-new_task-IsSound service events in
      let k = run-Keeps events (new_task service) tt in
      ground (arith, k.same, held_gone (run events (new_task service)).0 ended (s.ended ended))

-- Whether a shutdown is noticed at once.
abbrev listens : Phase → Bool
listens connecting = false
listens greeting = false
listens resting = true
listens gone = true
listens (serving pending) = true

abbrev is_greeting : Phase → Bool
is_greeting greeting = true
is_greeting _ = false

module _ (up : Bool) (wrote : Result Name (Unit {0})) (frame : Option (Result Name Message)) where
  -- A connect and a handshake end, if they are under way.
  abbrev pub settle_down : List Event
  settle_down = happen (connected up) ∷ happen (greeted wrote frame) ∷ []

  shut_gone :
      (p : Phase) (t : Task)
      → t.phase ≡ p
      → listens p ≡ true
      → is_gone (in_phase_step p shut t).0.phase ≡ true
  unfolding in_phase_step on_serving on_resting leave
  shut_gone (serving pending) t here h = refl
  shut_gone resting t here h = refl
  shut_gone gone t here h = ap is_gone here
  shut_gone connecting t here h = absurd (ground arith)
  shut_gone greeting t here h = absurd (ground arith)

  greeted_listens :
      (p : Phase) (t : Task)
      → t.phase ≡ p
      → (listens p || is_greeting p) ≡ true
      → listens (in_phase_step p (greeted wrote frame) t).0.phase ≡ true
  unfolding in_phase_step on_serving on_resting on_greeting
  greeted_listens (serving pending) t here h = ap listens here
  greeted_listens resting t here h = ap listens here
  greeted_listens gone t here h = ap listens here
  greeted_listens connecting t here h = absurd (ground arith)
  greeted_listens greeting t here h = elim (Result-cases (handshake wrote frame)) [
    | inl (good, is_ok) ↦ rw (is_ok, in_phase_step, on_greeting) refl
    | inr (bad, is_err) ↦ rw (is_err, in_phase_step, on_greeting) refl
  ]

  connected_listens :
      (p : Phase) (t : Task)
      → t.phase ≡ p
      → (listens (in_phase_step p (connected up) t).0.phase
          || is_greeting (in_phase_step p (connected up) t).0.phase)
        ≡ true
  unfolding in_phase_step on_serving on_resting on_greeting on_connecting
  connected_listens (serving pending) t here = ground (arith, ap listens here)
  connected_listens resting t here = ground (arith, ap listens here)
  connected_listens gone t here = ground (arith, ap listens here)
  connected_listens greeting t here = ground (arith, ap is_greeting here)
  connected_listens connecting t here = elim (Bool-cases up) [
    | inl yes' ↦ rw (yes', in_phase_step, on_connecting) refl
    | inr no' ↦ rw (no', in_phase_step, on_connecting) refl
  ]

  shutdown_ends : (t : Task) → is_gone (run (settle_down ++ happen shut ∷ []) t).0.phase ≡ true
  unfolding run act step
  shutdown_ends t =
      let t1 = (step (connected up) t).0 in
      let t2 = (step (greeted wrote frame) t1).0 in
      shut_gone t2.phase t2 refl
        (greeted_listens t1.phase t1 refl (connected_listens t.phase t refl))

run-append : (xs ys : List Event) (t : Task) → (run (xs ++ ys) t).0 ≡ (run ys (run xs t).0).0
unfolding run
run-append [] ys t = refl
run-append (event ∷ xs) ys t = run-append xs ys (act event t).0

-- Whatever has happened to a new backend task, and however a connect and a handshake that are under
-- way end, a shutdown then ends the task, and each reply channel was used as often as the task took
-- it over: every request was answered, or its channel dropped, and none was answered twice.
pub shutdown_settles :
    (service : Name) (events : List Event) (up : Bool) (wrote : Result Name (Unit {0}))
    (frame : Option (Result Name Message)) (c : Channel)
    → let all = events ++ (settle_down up wrote frame ++ happen shut ∷ []) in
      (is_gone (run all (new_task service)).0.phase ≡ true)
      × (count c (settled (run all (new_task service)).1) ≡ count c (taken all (new_task service)))
shutdown_settles service events up wrote frame c =
    let t = new_task service in
    let last = settle_down up wrote frame ++ happen shut ∷ [] in
    let ended : is_gone (run (events ++ last) t).0.phase ≡ true =
      rw (run-append events last t) (shutdown_ends up wrote frame (run events t).0) in
    (ended, ended_settled c service (events ++ last) ended)
