-- ===== src/Dispatcher/Delay.antt =====
-- src/service_dispatcher.rs: the delays between attempts to connect.
use native.Mathlib.Omega.{pow_step}
use nexus_net.Base.{
  ℕ, zero, suc, ◌+◌, ◌*◌, ◌^◌, ◌≡◌, min, refl, ap, ◌∙◌, false, List, [], ◌∷◌, Name, arith,
}
use nexus_net.Dispatcher.Types.{max_backoff}
use nexus_net.Dispatcher.Task.{Task, connecting, connected, slept, new_task}
use nexus_net.Dispatcher.Step.{step, in_phase_step, on_connecting, on_resting}
use nexus_net.Dispatcher.Runs.{Event, happen, act, run}

-- A number of attempts that fail, each with the delay after it.
unfoldable pub attempts : ℕ → List Event
attempts zero = []
attempts (suc n) = happen (connected false) ∷ happen slept ∷ attempts n

attempt-eq :
    (t : Task)
    → t.phase ≡ connecting
    → (step slept (step (connected false) t).0).0
      ≡ record t { phase = connecting; backoff = min (t.backoff * 2) max_backoff }
unfolding step in_phase_step on_connecting on_resting
attempt-eq t here = ap (λ p. (step slept (in_phase_step p (connected false) t).0).0) here

run-attempts :
    (n k : ℕ) (t : Task)
    → t.phase ≡ connecting
    → t.backoff ≡ min (2 ^ k) 60
    → (run (attempts n) t).0.backoff ≡ min (2 ^ (k + n)) 60
unfolding run attempts act
run-attempts zero k t here now = ground arith
run-attempts (suc n) k t here now =
    let next = record t { phase = connecting; backoff = min (t.backoff * 2) max_backoff } in
    let later = run-attempts n (suc k) next refl (ground (arith, now, pow_step 2 k)) in
    ground (arith, later, ap (λ u. (run (attempts n) u).0.backoff) (attempt-eq t here))

-- When a new backend task has failed to connect n times and has waited each time, its next delay is
-- 2 ^ n seconds, but at most 60.
pub run-new_task-attempts :
    (service : Name) (n : ℕ) → (run (attempts n) (new_task service)).0.backoff ≡ min (2 ^ n) 60
unfolding new_task
run-new_task-attempts service n =
    let sum : 0 + n ≡ n = omega arith in
    run-attempts n 0 (new_task service) refl refl ∙ ap (λ m. min (2 ^ m) 60) sum
