-- ===== src/Dispatcher/Control.antt =====
-- src/service_dispatcher.rs: `forward_control` and `forward_local`, with the tasks that they spawn and
-- the reply that they put into the queue of the backend that asked.
use nexus_net.Base.HashMap
use nexus_net.Base.{
  ℕ, Bool, Option, none, some, List, [], ◌∷◌, ◌++◌, Name, name_eq, bytes, Result, ok, err,
  if◌then◌else◌, Eq,
}
use nexus_net.Sidecar.Message.{Message, Uuid, id, service_request, service_request_to}
use nexus_net.Dispatcher.Types.{
  Channel, Response, InboundRequest, ControlCommand, BackendCmd, write_reply,
}
use nexus_net.Dispatcher.Timeouts.{command_timeout}
use nexus_net.Dispatcher.Routing.{LocalRoute, local, reject, remote, route_local}
use nexus_net.Dispatcher.Replies.{Waited, error_reply, remote_reply, local_reply}
use nexus_net.Dispatcher.Task.{Task, SendError, full, closed, is_gone, try_send}
use nexus_net.Dispatcher.Router.{Dispatcher}

-- What becomes of a control message with an id.
pub data Forwarded : Type 0 where
  -- The reply is made at once.
  answered : Message → Forwarded
  -- The controller has the command, and a spawned task waits for it that long.
  asked_controller : ControlCommand → ℕ → Forwarded
  -- A spawned task sends the request to another backend.
  asked_backend : Name → InboundRequest → Forwarded

abbrev pub payload_of : Message → List ℕ
payload_of (service_request u service payload) = payload
payload_of (service_request_to u service peer payload) = payload
payload_of _ = []

unfoldable pub busy_text : SendError → Name
busy_text full = bytes "backend queue full"
busy_text closed = bytes "backend unavailable"

module _ {PeerId : Type 0} ⦃e : Eq PeerId⦄ (parse : Name → Option PeerId) where
  -- `forward_local` up to its spawned task, with the channel that the task makes.
  unfoldable pub forward_local : Dispatcher PeerId → Channel → Name → Uuid → List ℕ → Forwarded
  forward_local d tx target id payload = elim (HashMap.get d.backends target) [
    | none ↦
        answered (error_reply id (bytes "no_backend") (bytes "no backend for service " ++ target))
    | some task ↦
        asked_backend target (record { service = target; payload = payload; response_tx = tx })
  ]

  -- The part of `forward_control` after the message has an id and the backend a sender, given
  -- whether the controller is there.
  unfoldable pub forward_route :
      Dispatcher PeerId → Bool → Channel → Uuid → Message → LocalRoute → Forwarded
  forward_route d controller tx id msg (local target) =
      forward_local d tx target id (payload_of msg)
  forward_route d controller tx id msg (reject reason) =
      answered (error_reply id (bytes "backend_not_ready") reason)
  forward_route d controller tx id msg remote =
      if controller
      then asked_controller (record { msg = msg; resp_tx = tx })
          (command_timeout msg d.query_timeout d.kad_timeout)
      else answered (error_reply id (bytes "node_gone") (bytes "node unavailable"))

  unfoldable pub forward_control :
      Dispatcher PeerId → Bool → Channel → Name → Message → Option Forwarded
  forward_control d controller tx service msg = elim (id msg) [
    | none ↦ none
    | some u ↦ elim (HashMap.get d.backends service) [
      | none ↦ none
      | some task ↦
          some (
            forward_route d controller tx u msg
              (route_local parse d.backend_ready d.my_peer_id msg))
    ]
  ]

-- The reply that is made: `from_controller` and `from_backend` say how the spawned tasks' waits
-- end, `sent` how the request reached the queue of the other backend.
unfoldable pub reply_of :
    (List ℕ → Name)
    → Uuid
    → Waited (List ℕ)
    → Result SendError Task
    → Waited Response
    → Forwarded
    → Message
reply_of lossy id from_controller taken from_backend (answered msg) = msg
reply_of lossy id from_controller taken from_backend (asked_controller cmd budget) =
    remote_reply id from_controller
reply_of lossy id from_controller (err e) from_backend (asked_backend target req) =
    error_reply id (bytes "backend_busy") (busy_text e)
reply_of lossy id from_controller (ok next) from_backend (asked_backend target req) =
    local_reply lossy id from_backend

-- `backend_tx.send(..).await`, which waits for a place in the queue: `t` is the task when it ends.
unfoldable pub send : BackendCmd → Task → Result SendError Task
send cmd t = if is_gone t.phase then err closed else ok (record t { queue = t.queue ++ cmd ∷ [] })

-- How the reply is written: a reply made at once is lost if the queue is full, a spawned task waits.
unfoldable pub write_to : Task → Message → Forwarded → Result SendError Task
write_to origin msg (answered early) = try_send (write_reply msg) origin
write_to origin msg (asked_controller cmd budget) = send (write_reply msg) origin
write_to origin msg (asked_backend target req) = send (write_reply msg) origin

-- The end of it, given the task of the backend that asked, when the reply is written.
unfoldable pub conclude :
    (List ℕ → Name)
    → Uuid
    → Waited (List ℕ)
    → Result SendError Task
    → Waited Response
    → Task
    → Forwarded
    → Result SendError Task
conclude lossy id from_controller taken from_backend origin f =
    write_to origin (reply_of lossy id from_controller taken from_backend f) f
