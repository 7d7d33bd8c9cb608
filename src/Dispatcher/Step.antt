-- ===== src/Dispatcher/Step.antt =====
-- src/service_dispatcher.rs: the steps of `backend_task` and of `wait_backoff`.
use nexus_net.Base.HashMap
use nexus_net.Base.{
  ◌*◌, min, true, false, Option, none, some, List, [], ◌∷◌, ◌++◌, Name, name_eq, bytes, Result, ok,
  err,
}
use nexus_net.Sidecar.Message.{Uuid, request}
use nexus_net.Dispatcher.Types.{
  Channel, BackendCmd, on_request, write_reply, status, initial_backoff, max_backoff,
}
use nexus_net.Dispatcher.Task.{
  Task, Phase, connecting, greeting, resting, gone, serving, Effect, answer, forget, write, emit,
  Input, connected, greeted, framed, received, disowned, shut, slept, handshake, protocol_version,
  leave, lose, fail_all, before, on_frame,
}
use nexus_net.Sidecar.Message.{hello}

-- The sender that `pending.insert` replaces is dropped.
abbrev forget_old : Option Channel → List Effect
forget_old none = []
forget_old (some tx) = forget tx ∷ []

-- A command of the queue, taken while the backend is connected.
unfoldable pub on_cmd :
    BackendCmd → Uuid → Result Name (Unit {0}) → List (Uuid × Channel) → Task → Task × List Effect
on_cmd (on_request req) id (ok done) pending t = (
  record t { phase = serving (HashMap.insert id req.response_tx pending) },
  write (request id t.service req.payload) ∷ forget_old (HashMap.get pending id),
)
on_cmd (on_request req) id (err e) pending t =
    before (answer req.response_tx (err (bytes "write to backend failed: " ++ e)) ∷ [])
      (lose pending t)
on_cmd (write_reply msg) id (ok done) pending t = (t, write msg ∷ [])
on_cmd (write_reply msg) id (err e) pending t = lose pending t

-- A command of the queue, taken by `wait_backoff`.
unfoldable pub refuse : BackendCmd → Task → Task × List Effect
refuse (on_request req) t =
    (t, answer req.response_tx (err (bytes "backend not connected: " ++ t.service)) ∷ [])
refuse (write_reply msg) t = (t, [])

unfoldable pub on_connecting : Input → Task → Task × List Effect
on_connecting (connected true) t = (record t { phase = greeting }, [])
on_connecting (connected false) t = (record t { phase = resting }, [])
on_connecting (greeted wrote frame) t = (t, [])
on_connecting (framed frame) t = (t, [])
on_connecting (received id wrote) t = (t, [])
on_connecting disowned t = (t, [])
on_connecting shut t = (t, [])
on_connecting slept t = (t, [])

abbrev hello_written : Result Name (Unit {0}) → List Effect
hello_written (ok done) = write (hello protocol_version) ∷ []
hello_written (err e) = []

unfoldable pub on_greeting : Input → Task → Task × List Effect
on_greeting (greeted wrote frame) t = before (hello_written wrote) (elim (handshake wrote frame) [
  | err e ↦ (record t { phase = resting }, [])
  | ok done ↦ (
    record t { phase = serving []; backoff = initial_backoff },
    emit (status (record { service = t.service; ready = true })) ∷ [],
  )
])
on_greeting (connected up) t = (t, [])
on_greeting (framed frame) t = (t, [])
on_greeting (received id wrote) t = (t, [])
on_greeting disowned t = (t, [])
on_greeting shut t = (t, [])
on_greeting slept t = (t, [])

abbrev next_cmd : List BackendCmd → Option (BackendCmd × List BackendCmd)
next_cmd [] = none
next_cmd (cmd ∷ queue) = some (cmd, queue)

unfoldable pub on_serving : Input → List (Uuid × Channel) → Task → Task × List Effect
on_serving (framed none) pending t = lose pending t
on_serving (framed (some (err e))) pending t = lose pending t
on_serving (framed (some (ok msg))) pending t = on_frame msg pending t
on_serving (received id wrote) pending t = elim t.queue [
  | [] ↦ (t, [])
  | cmd ∷ queue ↦ on_cmd cmd id wrote pending (record t { queue = queue })
]
on_serving disowned pending t = elim t.queue [
  | [] ↦ before (fail_all (bytes "dispatcher gone") pending) (leave t)
  | cmd ∷ queue ↦ (t, [])
]
on_serving shut pending t = before (fail_all (bytes "backend disconnected") pending) (leave t)
on_serving (connected up) pending t = (t, [])
on_serving (greeted wrote frame) pending t = (t, [])
on_serving slept pending t = (t, [])

unfoldable pub on_resting : Input → Task → Task × List Effect
on_resting slept t =
    (record t { phase = connecting; backoff = min (t.backoff * 2) max_backoff }, [])
on_resting shut t = leave t
on_resting disowned t = elim t.queue [ [] ↦ leave t | cmd ∷ queue ↦ (t, []) ]
on_resting (received id wrote) t = elim t.queue [
  | [] ↦ (t, [])
  | cmd ∷ queue ↦ refuse cmd (record t { queue = queue })
]
on_resting (connected up) t = (t, [])
on_resting (greeted wrote frame) t = (t, [])
on_resting (framed frame) t = (t, [])

-- What the task does not wait for changes nothing yet.
unfoldable pub in_phase_step : Phase → Input → Task → Task × List Effect
in_phase_step connecting input t = on_connecting input t
in_phase_step greeting input t = on_greeting input t
in_phase_step (serving pending) input t = on_serving input pending t
in_phase_step resting input t = on_resting input t
in_phase_step gone input t = (t, [])

unfoldable pub step : Input → Task → Task × List Effect
step input t = in_phase_step t.phase input t
