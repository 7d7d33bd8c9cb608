-- ===== src/Dispatcher/Serving.antt =====
-- src/service_dispatcher.rs: the reply channels before and after an event of a backend task.
use nexus_net.Base.HashMap
use nexus_net.Base.Bags.{count, count-append}
use nexus_net.Base.{
  ℕ, ◌+◌, ◌≡◌, refl, ap, none, some, List, [], ◌∷◌, Name, name_eq, Result, ok, err, arith,
  List-cases, Option-cases, inl, inr, bytes, nat_eq,
}
use nexus_net.Sidecar.Message.{Message, Uuid, reply}
use nexus_net.Cache.Recency.{IsMap, insert-IsMap}
use nexus_net.Dispatcher.Types.{Channel, BackendCmd, on_request, write_reply}
use nexus_net.Dispatcher.Task.{
  Task, serving, Effect, write, Input, connected, greeted, framed, received, disowned, shut, slept,
  leave, reply_outcome, on_frame, before, fail_all,
}
use nexus_net.Dispatcher.Step.{on_cmd, on_serving}
use nexus_net.Dispatcher.Runs.{channel_of, queued, pending_of, in_phase, settled}
use nexus_net.Dispatcher.Conserved.{
  IsTable, Keeps, held-eq, lose-Keeps, leave-Keeps, on_reply-Keeps, pending_of-remove,
}

module _ (c : Channel) where
  -- A result that leaves the queue and the phase as they are, and settles nothing.
  pub quiet :
      (t : Task) (effects : List Effect)
      → settled effects ≡ []
      → IsTable t.phase
      → Keeps c (count c (queued t.queue) + count c (in_phase t.phase)) (t, effects)
  quiet t effects none' m = record { same = ground (arith, held-eq c t, none'); table = m }

  module _ (pending : List (Uuid × Channel)) (t : Task) (here : t.phase ≡ serving pending)
      (m : IsMap pending) where
    abbrev Serves : Task × List Effect → Type 0
    Serves r = Keeps c (count c (queued t.queue) + count c (pending_of pending)) r

    idle : (effects : List Effect) → settled effects ≡ [] → Serves (t, effects)
    idle effects none' =
        let q = quiet t effects none' (rw here m) in
        record { same = ground (arith, q.same, ap in_phase here); table = rw here m }

    on_frame-Keeps : (msg : Message) → Serves (on_frame msg pending t)
    unfolding on_frame
    on_frame-Keeps (reply id ok' result error) =
        on_reply-Keeps c id (reply_outcome ok' result error) pending t here m
    on_frame-Keeps _ = idle _ refl

    -- A command that was taken off the queue.
    on_cmd-Keeps :
        (cmd : BackendCmd) (id : Uuid) (wrote : Result Name (Unit {0}))
        → Keeps c
            (count c (channel_of cmd) + (count c (queued t.queue) + count c (pending_of pending)))
            (on_cmd cmd id wrote pending t)
    unfolding on_cmd HashMap.insert
    on_cmd-Keeps (on_request req) id (err e) =
        let k = lose-Keeps c pending t in record { same = omega (arith, k.same); table = k.table }
    on_cmd-Keeps (write_reply msg) id (err e) =
        let k = lose-Keeps c pending t in record { same = omega (arith, k.same); table = k.table }
    on_cmd-Keeps (write_reply msg) id (ok done) =
        let k = idle (write msg ∷ []) refl in
        record { same = omega (arith, k.same); table = k.table }
    on_cmd-Keeps (on_request req) id (ok done) =
        let next = record t { phase = serving (HashMap.insert id req.response_tx pending) } in
        record {
          same = elim (Option-cases (HashMap.get pending id)) [
            | inl none' ↦
                rw none' (ground (arith, held-eq c next, HashMap.remove_absent id pending none'))
            | inr (tx, some') ↦
                rw some' (ground (arith, held-eq c next, pending_of-remove c id tx pending m some'))
          ];
          table = insert-IsMap id req.response_tx pending m;
        }

  -- The same when the queue is read first.
  pub read_queue :
      (n : ℕ) (queue : List BackendCmd) (t : Task) (r : Task × List Effect)
      → t.queue ≡ queue
      → Keeps c (count c (queued t.queue) + n) r
      → Keeps c (count c (queued queue) + n) r
  read_queue n queue t r here k = record {
    same = ground (arith, k.same, ap queued here);
    table = k.table;
  }

  pub on_serving-Keeps :
      (pending : List (Uuid × Channel)) (t : Task)
      → t.phase ≡ serving pending
      → IsMap pending
      → (input : Input)
      → Keeps c
          (count c (queued t.queue) + count c (pending_of pending))
          (on_serving input pending t)
  unfolding on_serving
  on_serving-Keeps pending t here m (framed none) = lose-Keeps c pending t
  on_serving-Keeps pending t here m (framed (some (err e))) = lose-Keeps c pending t
  on_serving-Keeps pending t here m (framed (some (ok msg))) = on_frame-Keeps pending t here m msg
  on_serving-Keeps pending t here m (received id wrote) = elim (List-cases t.queue) [
    | inl empty ↦
        rw (empty, on_serving)
          (read_queue (count c (pending_of pending)) [] t (t, []) empty
            (idle pending t here m [] refl))
    | inr (cmd, queue, more) ↦
        let k = on_cmd-Keeps pending (record t { queue = queue }) here m cmd id wrote in
        rw (more, on_serving)
          (record {
            same = ground (arith, k.same, count-append c (channel_of cmd) (queued queue));
            table = k.table;
          })
  ]
  on_serving-Keeps pending t here m disowned = elim (List-cases t.queue) [
    | inl empty ↦
        rw (empty, on_serving)
          (read_queue (count c (pending_of pending)) [] t
            (before (fail_all (bytes "dispatcher gone") pending) (leave t)) empty
            (leave-Keeps c (bytes "dispatcher gone") pending t))
    | inr (cmd, queue, more) ↦
        rw (more, on_serving)
          (read_queue (count c (pending_of pending)) (cmd ∷ queue) t (t, []) more
            (idle pending t here m [] refl))
  ]
  on_serving-Keeps pending t here m shut = leave-Keeps c (bytes "backend disconnected") pending t
  on_serving-Keeps pending t here m (connected up) = idle pending t here m [] refl
  on_serving-Keeps pending t here m (greeted wrote frame) = idle pending t here m [] refl
  on_serving-Keeps pending t here m slept = idle pending t here m [] refl
