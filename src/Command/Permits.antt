-- ===== src/Command/Permits.antt =====
-- src/controller/command.rs: how many workers run, and that each command is answered once.
use nexus_net.Base.{
  ℕ, zero, suc, ◌+◌, ◌≡◌, refl, Option, none, some, List, [], ◌∷◌, ◌++◌, Name, Result, length, min,
  max, arith, Bool-cases, inl, inr, ◌⊎◌,
}
use nexus_net.Base.Bags.{count, count-append}
use nexus_net.Base.{nat_eq}
use nexus_net.Sidecar.Message.{Message}
use nexus_net.Dispatcher.Types.{ControlCommand, Channel}
use nexus_net.Command.Keys.{can_run_in_dht_worker}
use nexus_net.Command.Dispatch.{
  Pool, Answer, new_pool, start_worker, dispatch_command, take_worker, end_worker, Move, arrives,
  ends, move, moves,
}

-- The channels of commands, of answers, and of what arrived.
abbrev pub waiting : List ControlCommand → List Channel
waiting [] = []
waiting (req ∷ rest) = req.resp_tx ∷ waiting rest

abbrev pub answered : List Answer → List Channel
answered [] = []
answered (a ∷ rest) = a.0 ∷ answered rest

abbrev pub arrived : List Move → List Channel
arrived [] = []
arrived (arrives req ∷ ms) = req.resp_tx ∷ arrived ms
arrived (ends n result ∷ ms) = arrived ms

answered-append : (xs ys : List Answer) → answered (xs ++ ys) ≡ answered xs ++ answered ys
answered-append [] ys = refl
answered-append (a ∷ xs) ys = rw (answered-append xs ys) refl

-- A pool accounts for its permits and for the commands that came to it.
pub record Accounts (total : ℕ) (c : Channel) (came : ℕ) (r : Pool × List Answer) : Type 0 where
  pub permits : r.0.dht_permits + length r.0.running ≡ total
  pub channels : came ≡ count c (answered r.1) + count c (waiting r.0.running)

take_worker-cases :
    (c : Channel) (n : ℕ) (running : List ControlCommand)
    → (take_worker n running ≡ none)
      ⊎ ((req : ControlCommand) × (rest : List ControlCommand) × (take_worker n running
            ≡ some (req, rest))
          × (length running ≡ 1 + length rest)
          × (count c (waiting running) ≡ count c (req.resp_tx ∷ waiting rest)))
unfolding take_worker
take_worker-cases c n [] = inl refl
take_worker-cases c zero (req ∷ running) = inr (req, running, refl, omega arith, refl)
take_worker-cases c (suc n) (first ∷ running) = elim (take_worker-cases c n running) [
  | inl nothing ↦ inl (rw nothing refl)
  | inr (req, rest, found, len, same) ↦
      inr (req, first ∷ rest, rw found refl, omega (arith, len), omega (arith, same))
]

module _ (total : ℕ) (c : Channel) where
  start_worker-Accounts :
      (req : ControlCommand) (permits : ℕ) (running : List ControlCommand)
      → permits + length running ≡ total
      → Accounts total c
          (count c (req.resp_tx ∷ waiting running))
          (start_worker req permits running)
  unfolding start_worker
  start_worker-Accounts req zero running h = record {
    permits = omega (arith, h);
    channels = omega arith;
  }
  start_worker-Accounts req (suc n) running h = record {
    permits = omega (arith, h);
    channels = omega arith;
  }

  end_worker-Accounts :
      (result : Result Name (List ℕ)) (n : ℕ) (pool : Pool)
      → pool.dht_permits + length pool.running ≡ total
      → Accounts total c
          (count c (waiting pool.running))
          (end_worker result pool.dht_permits (take_worker n pool.running) pool)
  unfolding end_worker
  end_worker-Accounts result n pool h = elim (take_worker-cases c n pool.running) [
    | inl nothing ↦ rw nothing (record { permits = h; channels = omega arith })
    | inr (req, rest, found, len, same) ↦
        rw found (record { permits = omega (arith, h, len); channels = omega (arith, same) })
  ]

  dispatch_command-Accounts :
      (run_command : Message → Option (Result Name (List ℕ))) (req : ControlCommand) (pool : Pool)
      → pool.dht_permits + length pool.running ≡ total
      → Accounts total c
          (count c (req.resp_tx ∷ waiting pool.running))
          (dispatch_command run_command req pool)
  unfolding dispatch_command
  dispatch_command-Accounts run_command req pool h =
      elim (Bool-cases (can_run_in_dht_worker req.msg)) [
        | inl worker ↦
            rw (worker, dispatch_command)
              (start_worker-Accounts req pool.dht_permits pool.running h)
        | inr here ↦ rw (here, dispatch_command) (record { permits = h; channels = omega arith })
      ]

  module _ (run_command : Message → Option (Result Name (List ℕ))) where
    move-Accounts :
        (m : Move) (pool : Pool)
        → pool.dht_permits + length pool.running ≡ total
        → Accounts total c
            (count c (arrived (m ∷ [])) + count c (waiting pool.running))
            (move run_command m pool)
    unfolding move
    move-Accounts (arrives req) pool h =
        let k = dispatch_command-Accounts run_command req pool h in
        record { permits = k.permits; channels = omega (arith, k.channels) }
    move-Accounts (ends n result) pool h =
        let k = end_worker-Accounts result n pool h in
        record { permits = k.permits; channels = omega (arith, k.channels) }

    arrived-eq :
        (m : Move) (ms : List Move)
        → count c (arrived (m ∷ ms)) ≡ count c (arrived (m ∷ [])) + count c (arrived ms)
    arrived-eq (arrives req) ms = omega arith
    arrived-eq (ends n result) ms = omega arith

    moves-Accounts :
        (ms : List Move) (pool : Pool)
        → pool.dht_permits + length pool.running ≡ total
        → Accounts total c
            (count c (arrived ms) + count c (waiting pool.running))
            (moves run_command ms pool)
    unfolding moves
    moves-Accounts [] pool h = record { permits = h; channels = omega arith }
    moves-Accounts (m ∷ ms) pool h =
        let k = move-Accounts m pool h in
        let next = move run_command m pool in
        let later = moves-Accounts ms next.0 k.permits in
        record {
          permits = later.permits;
          channels = ground (
            arith,
            k.channels,
            later.channels,
            arrived-eq m ms,
            answered-append next.1 (moves run_command ms next.0).1,
            count-append c (answered next.1) (answered (moves run_command ms next.0).1),
          );
        }

-- Whatever commands arrive and whichever workers end, in whatever order: each command was answered
-- once, or is run by a worker that still has to answer; and the workers that run and the permits that
-- are left are together as many as are configured, clamped to 1 and 16.
pub moves-new_pool-Accounts :
    (max_inflight_dht : ℕ) (run_command : Message → Option (Result Name (List ℕ))) (ms : List Move)
    (c : Channel)
    → Accounts
        (min (max max_inflight_dht 1) 16)
        c
        (count c (arrived ms))
        (moves run_command ms (new_pool max_inflight_dht))
unfolding new_pool
moves-new_pool-Accounts max_inflight_dht run_command ms c =
    let k =
      moves-Accounts (min (max max_inflight_dht 1) 16) c run_command ms (new_pool max_inflight_dht)
        (omega arith) in
    record { permits = k.permits; channels = omega (arith, k.channels) }
