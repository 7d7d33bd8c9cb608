-- ===== src/Dispatcher/Router.antt =====
-- src/service_dispatcher.rs: `ServiceDispatcher::new`, and what `run` does with inbound requests and
-- with status events. A backend's sender is its task, whose queue it fills.
use nexus_net.Base.HashMap
use nexus_net.Base.HashSet
use nexus_net.Base.{
  ℕ, none, some, List, [], ◌∷◌, ◌++◌, map, foldl, Name, name_eq, bytes, select, ok, err,
  if◌then◌else◌,
}
use nexus_net.Auth.Naming.{is_valid_service_name}
use nexus_net.Config.Schema.{LocalServiceEntry, NodeConfig}
use nexus_net.Registry.State.{from_secs}
use nexus_net.Dispatcher.Types.{BackendStatus, InboundRequest, on_request}
use nexus_net.Dispatcher.Task.{Task, new_task, Effect, answer, SendError, full, closed, try_send}

pub record Dispatcher (PeerId : Type 0) : Type 0 where
  pub backends : List (Name × Task)
  pub my_peer_id : PeerId
  pub backend_ready : List Name
  pub query_timeout : ℕ
  pub kad_timeout : ℕ

-- The services that get a backend.
unfoldable pub dispatched : List LocalServiceEntry → List Name
dispatched configured =
    select is_valid_service_name (map (λ (svc : LocalServiceEntry). svc.name) configured)

unfoldable pub spawn : List Name → List (Name × Task)
spawn names = foldl (λ m name. HashMap.insert name (new_task name) m) [] names

unfoldable pub refused : SendError → Name → Name
refused full service = bytes "backend overloaded " ++ service
refused closed service = bytes "No backend for service " ++ service

-- A status event, for the set of ready backends, which is published after each.
unfoldable pub noted : BackendStatus → List Name → List Name
noted status ready =
    if status.ready
    then HashSet.insert status.service ready
    else HashSet.remove status.service ready

module _ {PeerId : Type 0} where
  unfoldable pub new : {Addr : Type 0} → NodeConfig Addr → PeerId → Dispatcher PeerId
  new config my_peer_id =
      let d = config.services.dispatcher in
      record {
        backends = if d.enabled then spawn (dispatched d.local_services) else [];
        my_peer_id = my_peer_id;
        backend_ready = [];
        query_timeout = from_secs d.query_timeout_secs;
        kad_timeout = from_secs config.services.kademlia.query_timeout_seconds;
      }

  -- A request of another node.
  unfoldable pub on_inbound : InboundRequest → Dispatcher PeerId → Dispatcher PeerId × List Effect
  on_inbound req d = elim (HashMap.get d.backends req.service) [
    | none ↦ (d, answer req.response_tx (err (bytes "No backend for service " ++ req.service)) ∷ [])
    | some task ↦ elim (try_send (on_request req) task) [
      | ok next ↦ (record d { backends = HashMap.insert req.service next d.backends }, [])
      | err e ↦ (d, answer req.response_tx (err (refused e req.service)) ∷ [])
    ]
  ]

  unfoldable pub on_status : BackendStatus → Dispatcher PeerId → Dispatcher PeerId
  on_status status d = record d { backend_ready = noted status d.backend_ready }
