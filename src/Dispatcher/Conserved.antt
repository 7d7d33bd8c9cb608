-- ===== src/Dispatcher/Conserved.antt =====
-- src/service_dispatcher.rs: the reply channels before and after a step.
use nexus_net.Base.HashMap
use nexus_net.Base.Bags.{count, count-append}
use nexus_net.Base.{
  ℕ, ◌+◌, ◌≡◌, refl, false, some, List, [], ◌∷◌, ◌++◌, Name, name_eq, Result, arith, Bool-cases,
  Option-cases, inl, inr, bytes, ap, nat_eq,
}
use nexus_net.Sidecar.Message.{Uuid}
use nexus_net.Cache.Recency.{IsMap, remove-IsMap}
use nexus_net.Dispatcher.Types.{Channel, Response, BackendCmd, on_request, write_reply, status}
use nexus_net.Dispatcher.Task.{
  Task, Phase, connecting, greeting, resting, gone, serving, Effect, answer, forget, write, emit,
  fail_all, forget_all, leave, lose, on_reply, before,
}
use nexus_net.Dispatcher.Runs.{channel_of, queued, pending_of, in_phase, held, settled}

-- No request id occurs twice in the table.
abbrev pub IsTable : Phase → Type 0
IsTable connecting = Unit
IsTable greeting = Unit
IsTable resting = Unit
IsTable gone = Unit
IsTable (serving pending) = IsMap pending

module _ (c : Channel) where
  pub settled-append :
      (xs ys : List Effect)
      → count c (settled (xs ++ ys)) ≡ count c (settled xs) + count c (settled ys)
  settled-append [] ys = omega arith
  settled-append (answer tx outcome ∷ xs) ys = omega (arith, settled-append xs ys)
  settled-append (forget tx ∷ xs) ys = omega (arith, settled-append xs ys)
  settled-append (write msg ∷ xs) ys = settled-append xs ys
  settled-append (emit event ∷ xs) ys = settled-append xs ys

  settled-fail_all :
      (text : Name) (pending : List (Uuid × Channel))
      → count c (settled (fail_all text pending)) ≡ count c (pending_of pending)
  unfolding fail_all
  settled-fail_all text [] = refl
  settled-fail_all text ((id, tx) ∷ pending) = omega (arith, settled-fail_all text pending)

  settled-forget_all :
      (queue : List BackendCmd) → count c (settled (forget_all queue)) ≡ count c (queued queue)
  unfolding forget_all
  settled-forget_all [] = refl
  settled-forget_all (on_request req ∷ queue) = omega (arith, settled-forget_all queue)
  settled-forget_all (write_reply msg ∷ queue) = settled-forget_all queue

  pub queued-append_one :
      (queue : List BackendCmd) (cmd : BackendCmd)
      → count c (queued (queue ++ cmd ∷ [])) ≡ count c (queued queue) + count c (channel_of cmd)
  queued-append_one [] cmd = ground (arith, count-append c (channel_of cmd) [])
  queued-append_one (x ∷ queue) cmd = ground (
    arith,
    queued-append_one queue cmd,
    count-append c (channel_of x) (queued queue),
    count-append c (channel_of x) (queued (queue ++ cmd ∷ [])),
  )

  pub pending_of-remove :
      (id : Uuid) (tx : Channel) (pending : List (Uuid × Channel))
      → IsMap pending
      → HashMap.get pending id ≡ some tx
      → count c (pending_of pending)
        ≡ count c (tx ∷ []) + count c (pending_of (HashMap.remove id pending))
  unfolding HashMap.get HashMap.remove
  pending_of-remove id tx [] m h = absurd (ground arith)
  pending_of-remove id tx ((j, v) ∷ pending) m h = elim (Bool-cases (name_eq.beq j id)) [
    | inl same ↦ ground (arith, name_eq.beq_iff j id, HashMap.remove_absent id pending)
    | inr other ↦ ground (arith, pending_of-remove id tx pending m.1)
  ]

  pub held-eq :
      (t : Task) → count c (held t) ≡ count c (queued t.queue) + count c (in_phase t.phase)
  unfolding held
  held-eq t = count-append c (queued t.queue) (in_phase t.phase)

  -- Each reply channel is held as before, or used up, and the table stays one.
  pub record Keeps (before' : ℕ) (r : Task × List Effect) : Type 0 where
    pub same : before' ≡ count c (settled r.1) + count c (held r.0)
    pub table : IsTable r.0.phase

  pub lose-Keeps :
      (pending : List (Uuid × Channel)) (t : Task)
      → Keeps (count c (queued t.queue) + count c (pending_of pending)) (lose pending t)
  unfolding lose
  lose-Keeps pending t = record {
    same = ground (
      arith,
      held-eq (record t { phase = resting }),
      settled-append (fail_all (bytes "backend disconnected") pending)
          (emit (status (record { service = t.service; ready = false })) ∷ []),
      settled-fail_all (bytes "backend disconnected") pending,
    );
    table = tt;
  }

  pub leave-Keeps :
      (text : Name) (pending : List (Uuid × Channel)) (t : Task)
      → Keeps
          (count c (queued t.queue) + count c (pending_of pending))
          (before (fail_all text pending) (leave t))
  unfolding leave held
  leave-Keeps text pending t = record {
    same = ground (
      arith,
      settled-append (fail_all text pending) (forget_all t.queue),
      settled-fail_all text pending,
      settled-forget_all t.queue,
    );
    table = tt;
  }

  -- Without a table.
  pub stop-Keeps : (t : Task) → Keeps (count c (queued t.queue)) (leave t)
  unfolding leave held
  stop-Keeps t = record { same = ground (arith, settled-forget_all t.queue); table = tt }

  pub on_reply-Keeps :
      (id : Uuid) (outcome : Result Name Response) (pending : List (Uuid × Channel)) (t : Task)
      → t.phase ≡ serving pending
      → IsMap pending
      → Keeps
          (count c (queued t.queue) + count c (pending_of pending))
          (on_reply id outcome pending t)
  unfolding on_reply held
  on_reply-Keeps id outcome pending t here m = elim (Option-cases (HashMap.get pending id)) [
    | inl none' ↦
        rw (none', on_reply)
          (record { same = ground (arith, held-eq t, ap in_phase here); table = rw here m })
    | inr (tx, some') ↦
        rw (some', on_reply)
          (record {
            same = ground (
              arith,
              held-eq (record t { phase = serving (HashMap.remove id pending) }),
              pending_of-remove id tx pending m some',
            );
            table = remove-IsMap id pending m;
          })
  ]
