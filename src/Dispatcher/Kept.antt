-- ===== src/Dispatcher/Kept.antt =====
-- src/service_dispatcher.rs: the reply channels before and after an event of a backend task.
use nexus_net.Base.Bags.{count, count-append}
use nexus_net.Base.{
  ℕ, ◌+◌, ◌≡◌, refl, ap, sym, subst, ◌∙◌, ◌*◌, min, true, false, List, [], ◌∷◌, ◌++◌, name_eq, ok,
  err, arith, List-cases, Result-cases, inl, inr, nat_eq,
}
use nexus_net.Sidecar.Message.{hello}
use nexus_net.Dispatcher.Types.{
  Channel, BackendCmd, on_request, write_reply, status, initial_backoff, max_backoff,
}
use nexus_net.Dispatcher.Task.{
  Task, Phase, connecting, greeting, resting, gone, serving, Effect, write, emit, Input, connected,
  greeted, framed, received, disowned, shut, slept, try_send, handshake, protocol_version,
}
use nexus_net.Dispatcher.Step.{refuse, on_connecting, on_greeting, on_resting, step, in_phase_step}
use nexus_net.Dispatcher.Runs.{
  Event, offer, happen, act, channel_of, queued, in_phase, held, settled, accepted,
}
use nexus_net.Dispatcher.Serving.{quiet, on_serving-Keeps}
use nexus_net.Dispatcher.Conserved.{IsTable, Keeps, held-eq, stop-Keeps, queued-append_one}

module _ (c : Channel) where
  -- The same count in other words.
  recount : (n m : ℕ) {r : Task × List Effect} → n ≡ m → Keeps c n r → Keeps c m r
  recount n m h k = record { same = ground (arith, k.same, h); table = k.table }

  -- The phases without a table.
  rest :
      (t : Task)
      → in_phase t.phase ≡ []
      → IsTable t.phase
      → (effects : List Effect) → settled effects ≡ []
      → Keeps c (count c (queued t.queue)) (t, effects)
  rest t bare m effects none' =
      let q = quiet c t effects none' m in record { same = ground (arith, q.same, bare); table = m }

  idle :
      (t : Task) (p : Phase)
      → t.phase ≡ p
      → in_phase p ≡ []
      → IsTable p
      → Keeps c (count c (queued t.queue)) (t, [])
  idle t p here bare m = rest t (ap in_phase here ∙ bare) (rw here m) [] refl

  on_connecting-Keeps :
      (t : Task)
      → t.phase ≡ connecting
      → (input : Input) → Keeps c (count c (queued t.queue)) (on_connecting input t)
  unfolding on_connecting
  on_connecting-Keeps t here (connected true) = rest (record t { phase = greeting }) refl tt [] refl
  on_connecting-Keeps t here (connected false) = rest (record t { phase = resting }) refl tt [] refl
  on_connecting-Keeps t here (greeted wrote frame) = idle t connecting here refl tt
  on_connecting-Keeps t here (framed frame) = idle t connecting here refl tt
  on_connecting-Keeps t here (received id wrote) = idle t connecting here refl tt
  on_connecting-Keeps t here disowned = idle t connecting here refl tt
  on_connecting-Keeps t here shut = idle t connecting here refl tt
  on_connecting-Keeps t here slept = idle t connecting here refl tt

  on_greeting-Keeps :
      (t : Task)
      → t.phase ≡ greeting
      → (input : Input) → Keeps c (count c (queued t.queue)) (on_greeting input t)
  unfolding on_greeting handshake
  on_greeting-Keeps t here (greeted (err e) frame) =
      rest (record t { phase = resting }) refl tt [] refl
  on_greeting-Keeps t here (greeted (ok done) frame) =
      elim (Result-cases (handshake (ok done) frame)) [
        | inl (good, is_ok) ↦
            rw (is_ok, on_greeting)
              (rest (record t { phase = serving []; backoff = initial_backoff }) refl tt
                (write (hello protocol_version)
                  ∷ emit (status (record { service = t.service; ready = true }))
                  ∷ [])
                refl)
        | inr (bad, is_err) ↦
            rw (is_err, on_greeting)
              (rest (record t { phase = resting }) refl tt (write (hello protocol_version) ∷ [])
                refl)
      ]
  on_greeting-Keeps t here (connected up) = idle t greeting here refl tt
  on_greeting-Keeps t here (framed frame) = idle t greeting here refl tt
  on_greeting-Keeps t here (received id wrote) = idle t greeting here refl tt
  on_greeting-Keeps t here disowned = idle t greeting here refl tt
  on_greeting-Keeps t here shut = idle t greeting here refl tt
  on_greeting-Keeps t here slept = idle t greeting here refl tt

  refuse-Keeps :
      (t : Task)
      → t.phase ≡ resting
      → (cmd : BackendCmd)
      → Keeps c (count c (channel_of cmd) + count c (queued t.queue)) (refuse cmd t)
  unfolding refuse
  refuse-Keeps t here (on_request req) =
      let k = idle t resting here refl tt in
      record { same = omega (arith, k.same); table = k.table }
  refuse-Keeps t here (write_reply msg) =
      let k = idle t resting here refl tt in
      record { same = omega (arith, k.same); table = k.table }

  on_resting-Keeps :
      (t : Task)
      → t.phase ≡ resting
      → (input : Input) → Keeps c (count c (queued t.queue)) (on_resting input t)
  unfolding on_resting
  on_resting-Keeps t here slept =
      rest (record t { phase = connecting; backoff = min (t.backoff * 2) max_backoff }) refl tt []
        refl
  on_resting-Keeps t here shut = stop-Keeps c t
  on_resting-Keeps t here disowned = elim (List-cases t.queue) [
    | inl empty ↦
        rw (empty, on_resting) (recount _ 0 (ap (λ q. count c (queued q)) empty) (stop-Keeps c t))
    | inr (cmd, queue, more) ↦
        rw (more, on_resting)
          (recount _ _ (ap (λ q. count c (queued q)) more) (idle t resting here refl tt))
  ]
  on_resting-Keeps t here (received id wrote) = elim (List-cases t.queue) [
    | inl empty ↦
        rw (empty, on_resting)
          (recount _ 0 (ap (λ q. count c (queued q)) empty) (idle t resting here refl tt))
    | inr (cmd, queue, more) ↦
        let k = refuse-Keeps (record t { queue = queue }) here cmd in
        rw (more, on_resting) (recount _ _ (sym (count-append c (channel_of cmd) (queued queue))) k)
  ]
  on_resting-Keeps t here (connected up) = idle t resting here refl tt
  on_resting-Keeps t here (greeted wrote frame) = idle t resting here refl tt
  on_resting-Keeps t here (framed frame) = idle t resting here refl tt

  in_phase_step-Keeps :
      (p : Phase) (input : Input) (t : Task)
      → t.phase ≡ p
      → IsTable p
      → Keeps c (count c (queued t.queue) + count c (in_phase p)) (in_phase_step p input t)
  unfolding in_phase_step
  in_phase_step-Keeps connecting input t here m =
      recount _ _ (omega arith) (on_connecting-Keeps t here input)
  in_phase_step-Keeps greeting input t here m =
      recount _ _ (omega arith) (on_greeting-Keeps t here input)
  in_phase_step-Keeps resting input t here m =
      recount _ _ (omega arith) (on_resting-Keeps t here input)
  in_phase_step-Keeps gone input t here m = recount _ _ (omega arith) (idle t gone here refl tt)
  in_phase_step-Keeps (serving pending) input t here m = on_serving-Keeps c pending t here m input

  step-Keeps :
      (input : Input) (t : Task) → IsTable t.phase → Keeps c (count c (held t)) (step input t)
  unfolding step
  step-Keeps input t m =
      recount _ _ (sym (held-eq c t)) (in_phase_step-Keeps t.phase input t refl m)

  try_send-eq :
      (cmd : BackendCmd) (t next : Task)
      → try_send cmd t ≡ ok next
      → next ≡ record t { queue = t.queue ++ cmd ∷ [] }
  unfolding try_send
  try_send-eq cmd t next h = ground arith

  accept-Keeps :
      (cmd : BackendCmd) (t : Task)
      → IsTable t.phase
      → Keeps c
          (count c (channel_of cmd) + count c (held t))
          (record t { queue = t.queue ++ cmd ∷ [] }, [])
  accept-Keeps cmd t m = record {
    same = ground (
      arith,
      held-eq c t,
      held-eq c (record t { queue = t.queue ++ cmd ∷ [] }),
      queued-append_one c t.queue cmd,
    );
    table = m;
  }

  -- With the channels that an event brings in.
  pub act-Keeps :
      (event : Event) (t : Task)
      → IsTable t.phase
      → Keeps c (count c (accepted event t) + count c (held t)) (act event t)
  unfolding act accepted
  act-Keeps (offer cmd) t m = elim (Result-cases (try_send cmd t)) [
    | inr (e, refused) ↦
        rw (refused, act, accepted) (recount _ _ (omega arith) (record { same = refl; table = m }))
    | inl (next, taken) ↦
        rw (taken, act, accepted)
          (subst (λ n. Keeps c (count c (channel_of cmd) + count c (held t)) (n, []))
            (sym (try_send-eq cmd t next taken)) (accept-Keeps cmd t m))
  ]
  act-Keeps (happen input) t m = recount _ _ (omega arith) (step-Keeps input t m)
