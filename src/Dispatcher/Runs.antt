-- ===== src/Dispatcher/Runs.antt =====
-- src/service_dispatcher.rs: a backend task and the dispatcher that fills its queue, event by event.
use nexus_net.Base.{List, [], ◌∷◌, ◌++◌, ok, err}
use nexus_net.Sidecar.Message.{Uuid}
use nexus_net.Dispatcher.Types.{Channel, BackendCmd, on_request, write_reply}
use nexus_net.Dispatcher.Task.{
  Task, Phase, connecting, greeting, resting, gone, serving, Effect, answer, forget, write, emit,
  Input, try_send,
}
use nexus_net.Dispatcher.Step.{step}

pub data Event : Type 0 where
  offer : BackendCmd → Event
  happen : Input → Event

-- A command that is not taken stays with the dispatcher.
unfoldable pub act : Event → Task → Task × List Effect
act (offer cmd) t = elim (try_send cmd t) [ err e ↦ (t, []) | ok next ↦ (next, []) ]
act (happen input) t = step input t

unfoldable pub run : List Event → Task → Task × List Effect
run [] t = (t, [])
run (event ∷ events) t =
    let (next, effects) = act event t in
    let (last, more) = run events next in (last, effects ++ more)

-- The reply channels of a command, of the queue, of the table, and of the whole task.
abbrev pub channel_of : BackendCmd → List Channel
channel_of (on_request req) = req.response_tx ∷ []
channel_of (write_reply msg) = []

abbrev pub queued : List BackendCmd → List Channel
queued [] = []
queued (cmd ∷ queue) = channel_of cmd ++ queued queue

abbrev pub pending_of : List (Uuid × Channel) → List Channel
pending_of [] = []
pending_of ((id, tx) ∷ pending) = tx ∷ pending_of pending

abbrev pub in_phase : Phase → List Channel
in_phase connecting = []
in_phase greeting = []
in_phase resting = []
in_phase gone = []
in_phase (serving pending) = pending_of pending

unfoldable pub held : Task → List Channel
held t = queued t.queue ++ in_phase t.phase

-- The reply channels that the effects use up.
abbrev pub settled : List Effect → List Channel
settled [] = []
settled (answer tx outcome ∷ effects) = tx ∷ settled effects
settled (forget tx ∷ effects) = tx ∷ settled effects
settled (write msg ∷ effects) = settled effects
settled (emit event ∷ effects) = settled effects

-- The reply channels that the task takes over with an event.
unfoldable pub accepted : Event → Task → List Channel
accepted (offer cmd) t = elim (try_send cmd t) [ err e ↦ [] | ok next ↦ channel_of cmd ]
accepted (happen input) t = []
