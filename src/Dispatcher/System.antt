-- ===== src/Dispatcher/System.antt =====
-- src/service_dispatcher.rs: the dispatcher with its tasks and their events, which wait in the order
-- in which they were sent. (That at most 64 events wait only delays the tasks.)
use nexus_net.Base.HashMap
use nexus_net.Base.{none, some, List, [], ◌∷◌, ◌++◌, Name, name_eq, ok, err}
use nexus_net.Sidecar.Message.{Message}
use nexus_net.Dispatcher.Types.{InboundRequest, write_reply, BackendEvent, status, control}
use nexus_net.Dispatcher.Task.{Task, Effect, answer, forget, write, emit, Input, try_send}
use nexus_net.Dispatcher.Step.{step}
use nexus_net.Dispatcher.Router.{Dispatcher, on_inbound, on_status}

-- What the task sends to the dispatcher.
abbrev pub emitted : List Effect → List BackendEvent
emitted [] = []
emitted (emit event ∷ effects) = event ∷ emitted effects
emitted (answer tx outcome ∷ effects) = emitted effects
emitted (forget tx ∷ effects) = emitted effects
emitted (write msg ∷ effects) = emitted effects

pub record System (PeerId : Type 0) : Type 0 where
  pub dispatcher : Dispatcher PeerId
  pub events : List BackendEvent

pub data Move : Type 0 where
  -- A request of another node arrives.
  inbound : InboundRequest → Move
  -- A backend's task takes a step.
  works : Name → Input → Move
  -- A reply goes to a backend's queue.
  replies : Name → Message → Move
  -- The dispatcher takes the next event.
  next_event : Move

module _ {PeerId : Type 0} where
  -- A task, by the name of its backend, in the place of the one that was there.
  abbrev pub with_task : Name → Task → Dispatcher PeerId → Dispatcher PeerId
  with_task name t d = record d { backends = HashMap.insert name t d.backends }

  abbrev pub on_event : BackendEvent → Dispatcher PeerId → Dispatcher PeerId
  on_event (status s) d = on_status s d
  on_event (control service msg) d = d

  abbrev pub take_event : List BackendEvent → System PeerId → System PeerId
  take_event [] s = s
  take_event (event ∷ events) s = record {
    dispatcher = on_event event s.dispatcher;
    events = events;
  }

  unfoldable pub move : Move → System PeerId → System PeerId
  move (inbound req) s = record s { dispatcher = (on_inbound req s.dispatcher).0 }
  move (works name input) s = elim (HashMap.get s.dispatcher.backends name) [
    | none ↦ s
    | some t ↦ record {
      dispatcher = with_task name (step input t).0 s.dispatcher;
      events = s.events ++ emitted (step input t).1;
    }
  ]
  move (replies name msg) s = elim (HashMap.get s.dispatcher.backends name) [
    | none ↦ s
    | some t ↦ elim (try_send (write_reply msg) t) [
      | err e ↦ s
      | ok next ↦ record s { dispatcher = with_task name next s.dispatcher }
    ]
  ]
  move next_event s = take_event s.events s

  unfoldable pub moves : List Move → System PeerId → System PeerId
  moves [] s = s
  moves (m ∷ ms) s = moves ms (move m s)

  abbrev pub start : Dispatcher PeerId → System PeerId
  start d = record { dispatcher = d; events = [] }
