-- ===== src/Tests/Command.antt =====
-- src/controller/command.rs at concrete inputs.
use nexus_net.Base.{
  false, Result, Option, ℕ, ◌+◌, ◌==◌, ◌≤◌, none, err, if◌then◌else◌, nat_eq, ◌≡◌, refl, true, some,
  List, [], ◌∷◌, Name, bytes, ok, All,
}
use nexus_net.Sidecar.Message.{add_key}
use nexus_net.Base.{name_beq}
use nexus_net.Swarm.Peers.{starts_with}
use nexus_net.Command.Keys.{can_run_in_dht_worker, is_writable_key, check_compat_record_size}
use nexus_net.Command.Writes.{
  Call, put_record, start_providing, invalidate_record, invalidate_providers, Net, run_write,
  cmd_add_key, check_key, add_value, put, start_providing_record, invalidate_record_key,
}
use nexus_net.Swarm.Types.{disabled, Request}
use nexus_net.Command.Service.{
  Node, Event, fetched, invalidated, sent, request_service, attempts, on_providers, on_candidates,
  remote, on_answer, send_request_resolved, on_first, send_to_addresses, resolved, best_or_first,
}
use nexus_net.Base.HashMap
use nexus_net.Tracker.{best_peer, min_by_rtt}
use nexus_net.Command.Keys.{response_payload}
use nexus_net.Command.Remote.{Follows, fetches, request_service-Follows}
use nexus_net.Base.{min, max}
use nexus_net.Base.Bags.{count}
use nexus_net.Sidecar.Message.{Message, query_key}
use nexus_net.Dispatcher.Types.{ControlCommand}
use nexus_net.Command.Dispatch.{
  Move, arrives, ends, new_pool, move, moves, dispatch_command, start_worker, end_worker,
  take_worker,
}
use nexus_net.Command.Permits.{answered, arrived, Accounts, moves-new_pool-Accounts}
use nexus_net.Command.Same.{IsSame, worker_add_key-IsSame}
use nexus_net.Command.Writes.{worker_add_key}
use nexus_net.Command.Permitted.{IsPermitted, run_write-IsPermitted}

abbrev willing : Net
willing = record {
  put = λ _ _. ok tt;
  provide = λ _. ok tt;
  stop = λ _. ok tt;
  remove = λ _. ok tt;
  added = λ key. key;
  removed = λ key _ _. key;
}

abbrev web_key : Name
web_key = bytes "/oahd/service/web"

abbrev published : List Call
published =
    put_record web_key (1 ∷ 2 ∷ [])
    ∷ invalidate_record web_key
    ∷ invalidate_providers web_key
    ∷ start_providing web_key
    ∷ []

add_runs :
    run_write willing 8 (add_key (7 ∷ []) web_key (some (1 ∷ 2 ∷ [])) true)
    ≡ some (ok web_key, published)
unfolding run_write can_run_in_dht_worker cmd_add_key check_key is_writable_key name_beq starts_with
    add_value check_compat_record_size put start_providing_record invalidate_record_key
add_runs = refl

run_write-IsPermitted_example : All (IsPermitted 8) published
run_write-IsPermitted_example =
    run_write-IsPermitted willing 8 (add_key (7 ∷ []) web_key (some (1 ∷ 2 ∷ [])) true)
      (ok web_key, published) add_runs

-- The world counts the requests: the first one fails, the second one is answered.
abbrev flaky : Node ℕ ℕ ℕ
flaky = record {
  fetch_providers = λ w. (ok (1 ∷ 2 ∷ []), w);
  invalidate = λ w. w;
  peers = λ w. record { rtts = []; failures = [] };
  send_request = λ p request w.
      (if w == 0 then err disabled else ok (record { success = true; data' = 9 ∷ [] }), w + 1);
  get_closest_peers = λ p w. (err disabled, w);
  send_request_with_addresses = λ p request addrs w. (err disabled, w);
  lossy = λ text. text;
}

abbrev ask_web : Request
ask_web = record { service = bytes "web"; payload = [] }

-- The node itself is peer 1.
abbrev flaky_events : List (Event ℕ)
flaky_events =
    fetched (ok (1 ∷ 2 ∷ [])) ∷ sent 2 ∷ invalidated ∷ fetched (ok (1 ∷ 2 ∷ [])) ∷ sent 2 ∷ []

asks_twice : request_service flaky 1 ask_web 0 ≡ (ok (9 ∷ []), (flaky_events, 2))
unfolding request_service attempts on_providers on_candidates remote on_answer send_request_resolved
    on_first send_to_addresses resolved response_payload best_or_first best_peer min_by_rtt
    HashMap.get
asks_twice = refl

request_service-Follows_example :
    Follows 1 none (request_service flaky 1 ask_web 0).1.0
    × (fetches 1 (request_service flaky 1 ask_web 0).1.0 ≤ 2)
request_service-Follows_example = request_service-Follows flaky 1 ask_web 0

-- Of two lookups the second finds no permit; the first one ends, and a third one runs.
abbrev lookup : ℕ → ControlCommand
lookup c = record { msg = query_key (c ∷ []) web_key; resp_tx = c }

abbrev busy_moves : List Move
busy_moves = arrives (lookup 1) ∷ arrives (lookup 2) ∷ ends 0 (ok []) ∷ arrives (lookup 3) ∷ []

abbrev no_handler : Message → Option (Result Name (List ℕ))
no_handler msg = none

second_refused : answered (moves no_handler busy_moves (new_pool 0)).1 ≡ 2 ∷ 1 ∷ []
unfolding moves new_pool move dispatch_command can_run_in_dht_worker start_worker end_worker
    take_worker
second_refused = refl

moves-new_pool-Accounts_example :
    Accounts
      (min (max 0 1) 16)
      3
      (count 3 (arrived busy_moves))
      (moves no_handler busy_moves (new_pool 0))
moves-new_pool-Accounts_example = moves-new_pool-Accounts 0 no_handler busy_moves 3

worker_add_key-IsSame_example :
    IsSame
      (worker_add_key willing 8 web_key (some (1 ∷ 2 ∷ [])) false)
      (cmd_add_key willing 8 web_key (some (1 ∷ 2 ∷ [])) false)
worker_add_key-IsSame_example = worker_add_key-IsSame willing 8 web_key (some (1 ∷ 2 ∷ []))
