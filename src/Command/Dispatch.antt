-- ===== src/Command/Dispatch.antt =====
-- src/controller/command.rs: `dispatch_command`, with the permits of src/controller/node_controller.rs.
use nexus_net.Base.{
  ℕ, zero, suc, true, false, Option, none, some, List, [], ◌∷◌, ◌++◌, Name, bytes, Result, err, min,
  max,
}
use nexus_net.Sidecar.Message.{Message}
use nexus_net.Dispatcher.Types.{ControlCommand, Channel}
use nexus_net.Command.Keys.{can_run_in_dht_worker}

-- The permits that are left and the workers that run, the last one first.
pub record Pool : Type 0 where
  pub dht_permits : ℕ
  pub running : List ControlCommand

-- What is sent to the channel of a command.
abbrev pub Answer : Type 0
Answer = Channel × Result Name (List ℕ)

unfoldable pub new_pool : ℕ → Pool
new_pool max_inflight_dht = record { dht_permits = min (max max_inflight_dht 1) 16; running = [] }

-- A command that a worker can run.
unfoldable pub start_worker : ControlCommand → ℕ → List ControlCommand → Pool × List Answer
start_worker req zero running = (
  record { dht_permits = zero; running = running },
  (req.resp_tx, err (bytes "node busy: too many DHT commands")) ∷ [],
)
start_worker req (suc permits) running =
    (record { dht_permits = permits; running = req ∷ running }, [])

abbrev pub or_no_result : Option (Result Name (List ℕ)) → Result Name (List ℕ)
or_no_result (some result) = result
or_no_result none = err (bytes "command produced no result")

-- `run_command` is what the handler of the command gives, if no worker can run it.
unfoldable pub dispatch_command :
    (Message → Option (Result Name (List ℕ))) → ControlCommand → Pool → Pool × List Answer
dispatch_command run_command req pool = elim (can_run_in_dht_worker req.msg) [
  | true ↦ start_worker req pool.dht_permits pool.running
  | false ↦ (pool, (req.resp_tx, or_no_result (run_command req.msg)) ∷ [])
]

-- The worker at a place, and the others.
unfoldable pub take_worker : ℕ → List ControlCommand → Option (ControlCommand × List ControlCommand)
take_worker n [] = none
take_worker zero (req ∷ rest) = some (req, rest)
take_worker (suc n) (req ∷ rest) = elim (take_worker n rest) [
  | some found ↦ some (found.0, req ∷ found.1)
  | none ↦ none
]

-- A worker ends with a result: it answers and gives its permit back.
unfoldable pub end_worker :
    Result Name (List ℕ)
    → ℕ
    → Option (ControlCommand × List ControlCommand)
    → Pool
    → Pool × List Answer
end_worker result permits none pool = (pool, [])
end_worker result permits (some (req, rest)) pool =
    (record { dht_permits = suc permits; running = rest }, (req.resp_tx, result) ∷ [])

-- A command arrives, or the worker at a place ends.
pub data Move : Type 0 where
  arrives : ControlCommand → Move
  ends : ℕ → Result Name (List ℕ) → Move

module _ (run_command : Message → Option (Result Name (List ℕ))) where
  unfoldable pub move : Move → Pool → Pool × List Answer
  move (arrives req) pool = dispatch_command run_command req pool
  move (ends n result) pool = end_worker result pool.dht_permits (take_worker n pool.running) pool

  unfoldable pub moves : List Move → Pool → Pool × List Answer
  moves [] pool = (pool, [])
  moves (m ∷ ms) pool =
      let (next, answers) = move m pool in
      let (last, more) = moves ms next in (last, answers ++ more)
