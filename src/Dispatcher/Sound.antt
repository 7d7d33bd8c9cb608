-- ===== src/Dispatcher/Sound.antt =====
-- src/service_dispatcher.rs: the delay and the queue of a backend task.
use nexus_net.Base.HashMap
use nexus_net.Base.{
  ◌≤◌, ◌≡◌, refl, ap, true, false, none, some, List, [], ◌∷◌, Name, name_eq, length,
  length-append_one, Result, ok, err, arith, Option-cases, Result-cases, List-cases, inl, inr,
}
use nexus_net.Sidecar.Message.{Message, Uuid, reply}
use nexus_net.Dispatcher.Types.{Channel, BackendCmd, on_request, write_reply}
use nexus_net.Dispatcher.Task.{
  Task, Phase, connecting, greeting, resting, gone, serving, Input, connected, greeted, framed,
  received, disowned, shut, slept, try_send, is_gone, leave, lose, on_reply, on_frame, handshake,
  new_task,
}
use nexus_net.Dispatcher.Step.{
  on_cmd, refuse, on_connecting, on_greeting, on_serving, on_resting, in_phase_step, step,
}
use nexus_net.Dispatcher.Runs.{Event, offer, happen, act, run}

-- The delay is 1 to 60 seconds, the queue holds at most 64 commands, and that of a task that ended
-- is empty.
pub record IsSound (t : Task) : Type 0 where
  pub low : 1 ≤ t.backoff
  pub high : t.backoff ≤ 60
  pub small : length t.queue ≤ 64
  pub ended : is_gone t.phase ≡ true → t.queue ≡ []

on_frame-IsSound :
    (msg : Message) (pending : List (Uuid × Channel)) (t : Task)
    → IsSound t
    → IsSound (on_frame msg pending t).0
unfolding on_frame on_reply
on_frame-IsSound (reply id ok' result error) pending t h =
    elim (Option-cases (HashMap.get pending id)) [
      | inl none' ↦ rw (none', on_frame, on_reply) h
      | inr (tx, some') ↦
          rw (some', on_frame, on_reply)
            (record {
              low = h.low;
              high = h.high;
              small = h.small;
              ended = λ no. absurd (ground arith);
            })
    ]
on_frame-IsSound _ pending t h = h

-- A change of the phase that does not end the task.
in_phase-IsSound :
    (p : Phase) (t : Task) → is_gone p ≡ false → IsSound t → IsSound (record t { phase = p })
in_phase-IsSound p t on h = record {
  low = h.low;
  high = h.high;
  small = h.small;
  ended = λ no. absurd (ground arith);
}

leave-IsSound : (t : Task) → IsSound t → IsSound (leave t).0
unfolding leave
leave-IsSound t h = record { low = h.low; high = h.high; small = omega arith; ended = λ yes. refl }

on_cmd-IsSound :
    (cmd : BackendCmd) (id : Uuid) (wrote : Result Name (Unit {0}))
    (pending : List (Uuid × Channel)) (t : Task)
    → IsSound t
    → IsSound (on_cmd cmd id wrote pending t).0
unfolding on_cmd lose
on_cmd-IsSound (on_request req) id (ok done) pending t h = in_phase-IsSound _ t refl h
on_cmd-IsSound (on_request req) id (err e) pending t h = in_phase-IsSound _ t refl h
on_cmd-IsSound (write_reply msg) id (ok done) pending t h = h
on_cmd-IsSound (write_reply msg) id (err e) pending t h = in_phase-IsSound _ t refl h

refuse-IsSound : (cmd : BackendCmd) (t : Task) → IsSound t → IsSound (refuse cmd t).0
unfolding refuse
refuse-IsSound (on_request req) t h = h
refuse-IsSound (write_reply msg) t h = h

-- The rest of the queue of a task that goes on.
tail-IsSound :
    (cmd : BackendCmd) (queue : List BackendCmd) (t : Task)
    → t.queue ≡ cmd ∷ queue
    → IsSound t
    → IsSound (record t { queue = queue })
tail-IsSound cmd queue t more h = record {
  low = h.low;
  high = h.high;
  small = ground (arith, h.small, ap length more);
  ended = λ yes. absurd (ground (arith, h.ended yes));
}

on_serving-IsSound :
    (input : Input) (pending : List (Uuid × Channel)) (t : Task)
    → IsSound t
    → IsSound (on_serving input pending t).0
unfolding on_serving lose
on_serving-IsSound (framed none) pending t h = in_phase-IsSound _ t refl h
on_serving-IsSound (framed (some (err e))) pending t h = in_phase-IsSound _ t refl h
on_serving-IsSound (framed (some (ok msg))) pending t h = on_frame-IsSound msg pending t h
on_serving-IsSound (received id wrote) pending t h = elim (List-cases t.queue) [
  | inl empty ↦ rw (empty, on_serving) h
  | inr (cmd, queue, more) ↦
      rw (more, on_serving)
        (on_cmd-IsSound cmd id wrote pending (record t { queue = queue })
          (tail-IsSound cmd queue t more h))
]
on_serving-IsSound disowned pending t h = elim (List-cases t.queue) [
  | inl empty ↦ rw (empty, on_serving) (leave-IsSound t h)
  | inr (cmd, queue, more) ↦ rw (more, on_serving) h
]
on_serving-IsSound shut pending t h = leave-IsSound t h
on_serving-IsSound (connected up) pending t h = h
on_serving-IsSound (greeted wrote frame) pending t h = h
on_serving-IsSound slept pending t h = h

on_resting-IsSound : (input : Input) (t : Task) → IsSound t → IsSound (on_resting input t).0
unfolding on_resting
on_resting-IsSound slept t h = record {
  low = omega (arith, h.low);
  high = omega arith;
  small = h.small;
  ended = λ no. absurd (ground arith);
}
on_resting-IsSound shut t h = leave-IsSound t h
on_resting-IsSound disowned t h = elim (List-cases t.queue) [
  | inl empty ↦ rw (empty, on_resting) (leave-IsSound t h)
  | inr (cmd, queue, more) ↦ rw (more, on_resting) h
]
on_resting-IsSound (received id wrote) t h = elim (List-cases t.queue) [
  | inl empty ↦ rw (empty, on_resting) h
  | inr (cmd, queue, more) ↦
      rw (more, on_resting)
        (refuse-IsSound cmd (record t { queue = queue }) (tail-IsSound cmd queue t more h))
]
on_resting-IsSound (connected up) t h = h
on_resting-IsSound (greeted wrote frame) t h = h
on_resting-IsSound (framed frame) t h = h

on_connecting-IsSound : (input : Input) (t : Task) → IsSound t → IsSound (on_connecting input t).0
unfolding on_connecting
on_connecting-IsSound (connected true) t h = in_phase-IsSound _ t refl h
on_connecting-IsSound (connected false) t h = in_phase-IsSound _ t refl h
on_connecting-IsSound (greeted wrote frame) t h = h
on_connecting-IsSound (framed frame) t h = h
on_connecting-IsSound (received id wrote) t h = h
on_connecting-IsSound disowned t h = h
on_connecting-IsSound shut t h = h
on_connecting-IsSound slept t h = h

on_greeting-IsSound : (input : Input) (t : Task) → IsSound t → IsSound (on_greeting input t).0
unfolding on_greeting
on_greeting-IsSound (greeted wrote frame) t h = elim (Result-cases (handshake wrote frame)) [
  | inl (good, is_ok) ↦
      rw (is_ok, on_greeting)
        (record {
          low = omega arith;
          high = omega arith;
          small = h.small;
          ended = λ no. absurd (ground arith);
        })
  | inr (bad, is_err) ↦ rw (is_err, on_greeting) (in_phase-IsSound _ t refl h)
]
on_greeting-IsSound (connected up) t h = h
on_greeting-IsSound (framed frame) t h = h
on_greeting-IsSound (received id wrote) t h = h
on_greeting-IsSound disowned t h = h
on_greeting-IsSound shut t h = h
on_greeting-IsSound slept t h = h

in_phase_step-IsSound :
    (p : Phase) (input : Input) (t : Task) → IsSound t → IsSound (in_phase_step p input t).0
unfolding in_phase_step
in_phase_step-IsSound connecting input t h = on_connecting-IsSound input t h
in_phase_step-IsSound greeting input t h = on_greeting-IsSound input t h
in_phase_step-IsSound (serving pending) input t h = on_serving-IsSound input pending t h
in_phase_step-IsSound resting input t h = on_resting-IsSound input t h
in_phase_step-IsSound gone input t h = h

act-IsSound : (event : Event) (t : Task) → IsSound t → IsSound (act event t).0
unfolding act step try_send
act-IsSound (offer cmd) t h =
    ground (arith, h.low, h.high, h.small, h.ended, length-append_one t.queue cmd)
act-IsSound (happen input) t h = in_phase_step-IsSound t.phase input t h

run-IsSound : (events : List Event) (t : Task) → IsSound t → IsSound (run events t).0
unfolding run
run-IsSound [] t h = h
run-IsSound (event ∷ events) t h = run-IsSound events (act event t).0 (act-IsSound event t h)

-- Whatever happens to a new backend task, its delay is 1 to 60 seconds and its queue holds at most
-- 64 commands, and none once the task has ended.
pub run-new_task-IsSound :
    (service : Name) (events : List Event) → IsSound (run events (new_task service)).0
unfolding new_task
run-new_task-IsSound service events =
    run-IsSound events (new_task service)
      (record { low = omega arith; high = omega arith; small = omega arith; ended = λ no. refl })
