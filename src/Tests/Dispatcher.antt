-- ===== src/Tests/Dispatcher.antt =====
-- src/service_dispatcher.rs at concrete inputs.
use nexus_net.Base.HashSet
use nexus_net.Base.HashMap
use nexus_net.Base.Bags.{bag, count}
use nexus_net.Base.{
  ℕ, ◌≡◌, refl, true, Option, none, some, List, [], ◌∷◌, ◌++◌, Name, ok, name_eq, name_beq, nat_eq,
}
use nexus_net.Auth.Naming.{is_valid_service_name, is_valid_network_name}
use nexus_net.Config.Schema.{NodeConfig}
use nexus_net.Sidecar.Message.{Message, reply, hello, service_request_to}
use nexus_net.Dispatcher.Types.{InboundRequest, on_request}
use nexus_net.Dispatcher.Task.{
  Task, new_task, connected, greeted, framed, received, shut, serving, is_gone, handshake,
}
use nexus_net.Dispatcher.Step.{step, in_phase_step, on_connecting, on_greeting}
use nexus_net.Dispatcher.Runs.{Event, offer, happen, run, settled}
use nexus_net.Dispatcher.Promises.{Serves, trace, ledger, run-new_task_refines}
use nexus_net.Dispatcher.Sound.{IsSound, run-new_task-IsSound}
use nexus_net.Dispatcher.Drained.{taken, settle_down, shutdown_settles}
use nexus_net.Dispatcher.Router.{new, spawn, dispatched, on_status, noted}
use nexus_net.Dispatcher.Routing.{route_local}
use nexus_net.Dispatcher.Routed.{Goes, route_local-Goes}
use nexus_net.Config.Validate.{
  validate, check_intervals, check_limits, check_services, check_crypto,
}
use nexus_net.Dispatcher.Configured.{IsApplied, validate-IsApplied}
use nexus_net.Dispatcher.System.{works, next_event, moves, start, Move, move}
use nexus_net.Dispatcher.Published.{published_connected}
use nexus_net.Tests.Data.{web, chat, node_config, local_two}

abbrev request_to_web : ℕ → InboundRequest
request_to_web tx = record { service = web; payload = 5 ∷ []; response_tx = tx }

-- A task connects, takes two requests, answers one of them, and loses its backend.
abbrev session : List Event
session =
    offer (on_request (request_to_web 11))
    ∷ offer (on_request (request_to_web 12))
    ∷ happen (connected true)
    ∷ happen (greeted (ok tt) (some (ok (hello 2))))
    ∷ happen (received (1 ∷ []) (ok tt))
    ∷ happen (received (2 ∷ []) (ok tt))
    ∷ happen (framed (some (ok (reply (2 ∷ []) true (some (9 ∷ [])) none))))
    ∷ happen (framed none)
    ∷ []

run-new_task_refines_example :
    Serves (bag []) (trace session (new_task web)) (ledger (run session (new_task web)).0)
run-new_task_refines_example = run-new_task_refines web session

run-new_task-IsSound_example : IsSound (run session (new_task web)).0
run-new_task-IsSound_example = run-new_task-IsSound web session

shutdown_settles_example :
    let all = session ++ (settle_down true (ok tt) none ++ happen shut ∷ []) in
    (is_gone (run all (new_task web)).0.phase ≡ true)
    × (count 11 (settled (run all (new_task web)).1) ≡ count 11 (taken all (new_task web)))
shutdown_settles_example = shutdown_settles web session true (ok tt) none 11

-- Peer ids are numbers here, written as one byte.
abbrev parse_byte : Name → Option ℕ
parse_byte (x ∷ []) = some x
parse_byte _ = none

abbrev to_me : Message
to_me = service_request_to (4 ∷ []) web (7 ∷ []) (5 ∷ [])

route_local-Goes_example :
    Goes parse_byte (chat ∷ []) 7 to_me (route_local parse_byte (chat ∷ []) 7 to_me)
route_local-Goes_example = route_local-Goes parse_byte (chat ∷ []) 7 to_me

abbrev served_config : NodeConfig ℕ
served_config = record node_config {
  services = record node_config.services {
    dispatcher = record node_config.services.dispatcher {
      enabled = true;
      local_services = local_two;
    };
  };
}

-- The backend of a service connects, and the dispatcher hears of it.
abbrev web_connects : List Move
web_connects =
    works web (connected true) ∷ works web (greeted (ok tt) (some (ok (hello 2)))) ∷ next_event ∷ []

abbrev me : ℕ
me = 7

abbrev web_task : Task
web_task = record (new_task web) { phase = serving [] }

published_connected_example :
    HashSet.contains
      (moves web_connects (start (new served_config me))).dispatcher.backend_ready
      web
    ≡ true
unfolding moves move new spawn dispatched is_valid_service_name is_valid_network_name HashMap.get
    HashMap.insert HashMap.remove name_beq step in_phase_step on_connecting on_greeting handshake
    new_task on_status noted
published_connected_example =
    published_connected served_config me web_connects web web_task refl refl refl

validate-IsApplied_example : IsApplied served_config me
unfolding validate check_intervals check_limits check_services check_crypto HashSet.contains
    name_beq
validate-IsApplied_example = validate-IsApplied served_config me refl refl
