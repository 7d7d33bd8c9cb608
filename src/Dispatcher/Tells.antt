-- ===== src/Dispatcher/Tells.antt =====
-- src/service_dispatcher.rs: what each step of a task tells the dispatcher of its connection.
use nexus_net.Base.HashMap
use nexus_net.Base.{
  ◌≡◌, ◌⊎◌, refl, ap, Bool, true, false, none, some, List, [], ◌∷◌, ◌++◌, Name, name_eq, Result, ok,
  err, arith, Option-cases, Result-cases, List-cases, inl, inr, bytes,
}
use nexus_net.Sidecar.Message.{Message, Uuid, reply}
use nexus_net.Dispatcher.Types.{
  Channel, BackendCmd, on_request, write_reply, BackendEvent, status, control,
}
use nexus_net.Dispatcher.Task.{
  Task, Phase, connecting, greeting, resting, gone, serving, Effect, answer, forget, write, emit,
  Input, fail_all, forget_all, leave, lose, on_reply, on_frame, handshake, is_gone, connected,
  greeted, framed, received, disowned, shut, slept, before,
}
use nexus_net.Dispatcher.Step.{
  step, in_phase_step, on_cmd, refuse, on_serving, on_resting, on_connecting, on_greeting,
}
use nexus_net.Dispatcher.System.{emitted}

abbrev pub is_serving : Phase → Bool
is_serving connecting = false
is_serving greeting = false
is_serving resting = false
is_serving gone = false
is_serving (serving pending) = true

abbrev pub silent : List BackendEvent → Bool
silent [] = true
silent (status s ∷ events) = false
silent (control service msg ∷ events) = silent events

-- A step either says nothing of the connection, which is as before unless the task ends, or sends
-- one status, which is true.
abbrev pub Tells : Name → Phase → Task × List Effect → Type 0
Tells name phase (next, effects) =
    (next.service ≡ name)
    × (((silent (emitted effects) ≡ true)
          × (is_gone next.phase ≡ true ⊎ is_serving next.phase ≡ is_serving phase))
        ⊎ ((b : Bool) × (emitted effects ≡ status (record { service = name; ready = b }) ∷ [])
            × (is_serving next.phase ≡ b)))

emitted-append : (xs ys : List Effect) → emitted (xs ++ ys) ≡ emitted xs ++ emitted ys
emitted-append [] ys = refl
emitted-append (answer tx outcome ∷ xs) ys = emitted-append xs ys
emitted-append (forget tx ∷ xs) ys = emitted-append xs ys
emitted-append (write msg ∷ xs) ys = emitted-append xs ys
emitted-append (emit event ∷ xs) ys = ap (◌∷◌ event) (emitted-append xs ys)

emitted-fail_all :
    (text : Name) (pending : List (Uuid × Channel)) → emitted (fail_all text pending) ≡ []
unfolding fail_all
emitted-fail_all text [] = refl
emitted-fail_all text ((id, tx) ∷ pending) = emitted-fail_all text pending

emitted-forget_all : (queue : List BackendCmd) → emitted (forget_all queue) ≡ []
unfolding forget_all
emitted-forget_all [] = refl
emitted-forget_all (on_request req ∷ queue) = emitted-forget_all queue
emitted-forget_all (write_reply msg ∷ queue) = emitted-forget_all queue

lose-Tells :
    (pending : List (Uuid × Channel)) (p : Phase) (t : Task) → Tells t.service p (lose pending t)
unfolding lose
lose-Tells pending p t =
    let said = emit (status (record { service = t.service; ready = false })) ∷ [] in
    let lost = fail_all (bytes "backend disconnected") pending in
    (
      refl,
      inr (
        false,
        ground (
          arith,
          emitted-append lost said,
          emitted-fail_all (bytes "backend disconnected") pending,
        ),
        refl,
      ),
    )

leave-Tells : (t : Task) (p : Phase) → Tells t.service p (leave t)
unfolding leave
leave-Tells t p = (refl, inl (ap silent (emitted-forget_all t.queue), inl refl))

drain-Tells :
    (text : Name) (pending : List (Uuid × Channel)) (t : Task) (p : Phase)
    → Tells t.service p (before (fail_all text pending) (leave t))
unfolding leave
drain-Tells text pending t p = (
  refl,
  inl (
    ground (
      arith,
      emitted-append (fail_all text pending) (forget_all t.queue),
      emitted-fail_all text pending,
      emitted-forget_all t.queue,
    ),
    inl refl,
  ),
)

-- A step that emits no status.
quiet-Tells :
    (name : Name) (next : Task) (p : Phase) (effects : List Effect)
    → next.service ≡ name
    → silent (emitted effects) ≡ true
    → is_serving next.phase ≡ is_serving p
    → Tells name p (next, effects)
quiet-Tells name next p effects same none' still = (same, inl (none', inr still))

module _ (pending : List (Uuid × Channel)) (t : Task) (here : t.phase ≡ serving pending) where
  on_frame-Tells : (msg : Message) → Tells t.service (serving pending) (on_frame msg pending t)
  unfolding on_frame on_reply
  on_frame-Tells (reply id ok' result error) = elim (Option-cases (HashMap.get pending id)) [
    | inl none' ↦
        rw (none', on_frame, on_reply)
          (quiet-Tells t.service t (serving pending) [] refl refl (ap is_serving here))
    | inr (tx, some') ↦ rw (some', on_frame, on_reply) (refl, inl (refl, inr refl))
  ]
  on_frame-Tells _ = (refl, inl (refl, inr (ap is_serving here)))

  on_cmd-Tells :
      (cmd : BackendCmd) (id : Uuid) (wrote : Result Name (Unit {0}))
      → Tells t.service (serving pending) (on_cmd cmd id wrote pending t)
  unfolding on_cmd
  on_cmd-Tells (on_request req) id (ok done) = elim (Option-cases (HashMap.get pending id)) [
    | inl none' ↦ rw (none', on_cmd) (refl, inl (refl, inr refl))
    | inr (tx, some') ↦ rw (some', on_cmd) (refl, inl (refl, inr refl))
  ]
  on_cmd-Tells (on_request req) id (err e) = lose-Tells pending (serving pending) t
  on_cmd-Tells (write_reply msg) id (ok done) = (refl, inl (refl, inr (ap is_serving here)))
  on_cmd-Tells (write_reply msg) id (err e) = lose-Tells pending (serving pending) t

on_serving-Tells :
    (input : Input) (pending : List (Uuid × Channel)) (t : Task)
    → t.phase ≡ serving pending
    → Tells t.service (serving pending) (on_serving input pending t)
unfolding on_serving
on_serving-Tells (framed none) pending t here = lose-Tells pending (serving pending) t
on_serving-Tells (framed (some (err e))) pending t here = lose-Tells pending (serving pending) t
on_serving-Tells (framed (some (ok msg))) pending t here = on_frame-Tells pending t here msg
on_serving-Tells (received id wrote) pending t here = elim (List-cases t.queue) [
  | inl empty ↦ rw (empty, on_serving) (refl, inl (refl, inr (ap is_serving here)))
  | inr (cmd, queue, more) ↦
      rw (more, on_serving) (on_cmd-Tells pending (record t { queue = queue }) here cmd id wrote)
]
on_serving-Tells disowned pending t here = elim (List-cases t.queue) [
  | inl empty ↦
      rw (empty, on_serving) (drain-Tells (bytes "dispatcher gone") pending t (serving pending))
  | inr (cmd, queue, more) ↦ rw (more, on_serving) (refl, inl (refl, inr (ap is_serving here)))
]
on_serving-Tells shut pending t here =
    drain-Tells (bytes "backend disconnected") pending t (serving pending)
on_serving-Tells _ pending t here = (refl, inl (refl, inr (ap is_serving here)))

refuse-Tells :
    (cmd : BackendCmd) (t : Task) → t.phase ≡ resting → Tells t.service resting (refuse cmd t)
unfolding refuse
refuse-Tells (on_request req) t here = (refl, inl (refl, inr (ap is_serving here)))
refuse-Tells (write_reply msg) t here = (refl, inl (refl, inr (ap is_serving here)))

on_resting-Tells :
    (input : Input) (t : Task) → t.phase ≡ resting → Tells t.service resting (on_resting input t)
unfolding on_resting
on_resting-Tells slept t here = (refl, inl (refl, inr refl))
on_resting-Tells shut t here = leave-Tells t resting
on_resting-Tells disowned t here = elim (List-cases t.queue) [
  | inl empty ↦ rw (empty, on_resting) (leave-Tells t resting)
  | inr (cmd, queue, more) ↦ rw (more, on_resting) (refl, inl (refl, inr (ap is_serving here)))
]
on_resting-Tells (received id wrote) t here = elim (List-cases t.queue) [
  | inl empty ↦ rw (empty, on_resting) (refl, inl (refl, inr (ap is_serving here)))
  | inr (cmd, queue, more) ↦
      rw (more, on_resting) (refuse-Tells cmd (record t { queue = queue }) here)
]
on_resting-Tells _ t here = (refl, inl (refl, inr (ap is_serving here)))

on_connecting-Tells :
    (input : Input) (t : Task)
    → t.phase ≡ connecting
    → Tells t.service connecting (on_connecting input t)
unfolding on_connecting
on_connecting-Tells (connected true) t here = (refl, inl (refl, inr refl))
on_connecting-Tells (connected false) t here = (refl, inl (refl, inr refl))
on_connecting-Tells _ t here = (refl, inl (refl, inr (ap is_serving here)))

on_greeting-Tells :
    (input : Input) (t : Task) → t.phase ≡ greeting → Tells t.service greeting (on_greeting input t)
unfolding on_greeting handshake
on_greeting-Tells (greeted (err e) frame) t here = (refl, inl (refl, inr refl))
on_greeting-Tells (greeted (ok done) frame) t here =
    elim (Result-cases (handshake (ok done) frame)) [
      | inl (good, is_ok) ↦ rw (is_ok, on_greeting) (refl, inr (true, refl, refl))
      | inr (bad, is_err) ↦ rw (is_err, on_greeting) (refl, inl (refl, inr refl))
    ]
on_greeting-Tells _ t here = (refl, inl (refl, inr (ap is_serving here)))

in_phase_step-Tells :
    (p : Phase) (input : Input) (t : Task)
    → t.phase ≡ p
    → Tells t.service p (in_phase_step p input t)
unfolding in_phase_step
in_phase_step-Tells connecting input t here = on_connecting-Tells input t here
in_phase_step-Tells greeting input t here = on_greeting-Tells input t here
in_phase_step-Tells (serving pending) input t here = on_serving-Tells input pending t here
in_phase_step-Tells resting input t here = on_resting-Tells input t here
in_phase_step-Tells gone input t here = (refl, inl (refl, inr (ap is_serving here)))

pub step-Tells : (input : Input) (t : Task) → Tells t.service t.phase (step input t)
unfolding step
step-Tells input t = in_phase_step-Tells t.phase input t refl
