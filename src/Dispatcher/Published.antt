-- ===== src/Dispatcher/Published.antt =====
-- src/service_dispatcher.rs: the states that a new dispatcher and its tasks reach.
use nexus_net.Base.HashMap
use nexus_net.Base.HashSet
use nexus_net.Base.{
  ◌≡◌, refl, sym, ◌∙◌, false, some, List, [], ◌∷◌, ◌++◌, Name, name_eq, name_beq, name_beq_iff, ok,
  arith, Bool-cases, Option-cases, Result-cases, inl, inr, foldl_inv, subst,
}
use nexus_net.Config.Schema.{NodeConfig}
use nexus_net.Dispatcher.Types.{BackendCmd, on_request, write_reply, BackendEvent, status, control}
use nexus_net.Dispatcher.Task.{Task, Input, try_send, is_gone, new_task}
use nexus_net.Dispatcher.Step.{step}
use nexus_net.Dispatcher.Router.{new, spawn, dispatched, on_inbound, on_status}
use nexus_net.Dispatcher.System.{
  System, Move, inbound, works, replies, next_event, move, moves, start, emitted, with_task,
  take_event,
}
use nexus_net.Dispatcher.Tells.{is_serving}
use nexus_net.Dispatcher.Readiness.{ready_after, ready_after-append, IsTrue, own-IsTrue, others-eq}

queue-IsTrue :
    (name : Name) (ready : List Name) (cmd : BackendCmd) (t next : Task)
    → try_send cmd t ≡ ok next
    → IsTrue name ready t
    → IsTrue name ready next
unfolding try_send
queue-IsTrue name ready cmd t next sent h = ground (arith, sent, h.0, h.1)

module _ {PeerId : Type 0} where
  abbrev pub IsTruthful : System PeerId → Type 0
  IsTruthful s =
      (name : Name) (t : Task)
      → HashMap.get s.dispatcher.backends name ≡ some t
      → IsTrue name (ready_after s.events s.dispatcher.backend_ready) t

  -- A task takes a place and the set is as before.
  with_task-IsTruthful :
      (name : Name) (next : Task) (s : System PeerId)
      → IsTruthful s
      → IsTrue name (ready_after s.events s.dispatcher.backend_ready) next
      → IsTruthful (record s { dispatcher = with_task name next s.dispatcher })
  with_task-IsTruthful name next s h new' j t found = elim (Bool-cases (name_beq name j)) [
    | inl same ↦ ground (
      arith,
      found,
      same,
      name_beq_iff name j,
      HashMap.get-insert name j next s.dispatcher.backends,
      new',
    )
    | inr other ↦
        h j t (ground (arith, found, other, HashMap.get-insert name j next s.dispatcher.backends))
  ]

  works-IsTruthful :
      (name : Name) (input : Input) (t : Task) (s : System PeerId)
      → HashMap.get s.dispatcher.backends name ≡ some t
      → IsTruthful s
      → IsTruthful (record {
        dispatcher = with_task name (step input t).0 s.dispatcher;
        events = s.events ++ emitted (step input t).1;
      })
  works-IsTruthful name input t s here h j u found =
      let ready = ready_after s.events s.dispatcher.backend_ready in
      let later =
        ready_after-append s.events (emitted (step input t).1) s.dispatcher.backend_ready in
      subst (λ r. IsTrue j r u) (sym later)
        (elim (Bool-cases (name_beq name j)) [
          | inl same ↦ ground (
            arith,
            found,
            same,
            name_beq_iff name j,
            HashMap.get-insert name j (step input t).0 s.dispatcher.backends,
            own-IsTrue name ready input t (h name t here),
          )
          | inr other ↦
              let there : HashMap.get s.dispatcher.backends j ≡ some u = ground (
                arith,
                found,
                other,
                HashMap.get-insert name j (step input t).0 s.dispatcher.backends,
              ) in
              let apart = h j u there in
              (
                apart.0,
                λ alive. others-eq j ready input t (rw (h name t here).0 other) ∙ apart.1 alive,
              )
        ])

  take_event-IsTruthful :
      (events : List BackendEvent) (s : System PeerId)
      → s.events ≡ events
      → IsTruthful s
      → IsTruthful (take_event events s)
  unfolding ready_after on_status
  take_event-IsTruthful [] s here h j t found = h j t found
  take_event-IsTruthful (status e ∷ events) s here h j t found =
      subst (λ es. IsTrue j (ready_after es s.dispatcher.backend_ready) t) here (h j t found)
  take_event-IsTruthful (control service msg ∷ events) s here h j t found =
      subst (λ es. IsTrue j (ready_after es s.dispatcher.backend_ready) t) here (h j t found)

  move-IsTruthful : (m : Move) (s : System PeerId) → IsTruthful s → IsTruthful (move m s)
  unfolding move on_inbound
  move-IsTruthful (inbound req) s h =
      elim (Option-cases (HashMap.get s.dispatcher.backends req.service)) [
        | inl none' ↦ rw (none', move, on_inbound) h
        | inr (t, some') ↦ elim (Result-cases (try_send (on_request req) t)) [
          | inr (e, refused) ↦ rw (some', refused, move, on_inbound) h
          | inl (next, taken) ↦
              rw (some', taken, move, on_inbound)
                (with_task-IsTruthful req.service next s h (
                  queue-IsTrue req.service _ (on_request req) t next taken (h req.service t some')))
        ]
      ]
  move-IsTruthful (works name input) s h =
      elim (Option-cases (HashMap.get s.dispatcher.backends name)) [
        | inl none' ↦ rw (none', move) h
        | inr (t, some') ↦ rw (some', move) (works-IsTruthful name input t s some' h)
      ]
  move-IsTruthful (replies name msg) s h =
      elim (Option-cases (HashMap.get s.dispatcher.backends name)) [
        | inl none' ↦ rw (none', move) h
        | inr (t, some') ↦ elim (Result-cases (try_send (write_reply msg) t)) [
          | inr (e, refused) ↦ rw (some', refused, move) h
          | inl (next, taken) ↦
              rw (some', taken, move)
                (with_task-IsTruthful name next s h
                  (queue-IsTrue name _ (write_reply msg) t next taken (h name t some')))
        ]
      ]
  move-IsTruthful next_event s h = take_event-IsTruthful s.events s refl h

  moves-IsTruthful : (ms : List Move) (s : System PeerId) → IsTruthful s → IsTruthful (moves ms s)
  unfolding moves
  moves-IsTruthful [] s h = h
  moves-IsTruthful (m ∷ ms) s h = moves-IsTruthful ms (move m s) (move-IsTruthful m s h)

-- The tasks of a new dispatcher.
abbrev AreNew : List (Name × Task) → Type 0
AreNew m = (name : Name) (t : Task) → HashMap.get m name ≡ some t → t ≡ new_task name

insert-AreNew :
    (m : List (Name × Task)) (name : Name)
    → AreNew m
    → AreNew (HashMap.insert name (new_task name) m)
insert-AreNew m name h j t found =
    ground (arith, found, HashMap.get-insert name j (new_task name) m, name_beq_iff name j, h j t)

spawn-AreNew : (names : List Name) → AreNew (spawn names)
unfolding spawn HashMap.get
spawn-AreNew names =
    foldl_inv AreNew (λ m name. HashMap.insert name (new_task name) m) insert-AreNew [] names
      λ name t found. absurd (ground arith)

module _ {PeerId Addr : Type 0} (config : NodeConfig Addr) (me : PeerId) where
  new-AreNew : AreNew (new config me).backends
  unfolding new HashMap.get
  new-AreNew = elim (Bool-cases config.services.dispatcher.enabled) [
    | inl on ↦ rw (on, new) (spawn-AreNew (dispatched config.services.dispatcher.local_services))
    | inr off ↦ rw (off, new) λ name t found. absurd (ground arith)
  ]

  new-IsTruthful : IsTruthful (start (new config me))
  unfolding new ready_after new_task HashSet.contains
  new-IsTruthful name t found = rw (new-AreNew name t found) (refl, λ alive. refl)

  -- Whatever moves a new dispatcher and its backends make, and in whatever order: when no event
  -- waits, the published set holds a backend whose task has not ended exactly if its task is
  -- connected.
  pub published_connected :
      (ms : List Move) (name : Name) (t : Task)
      → (moves ms (start (new config me))).events ≡ []
      → HashMap.get (moves ms (start (new config me))).dispatcher.backends name ≡ some t
      → is_gone t.phase ≡ false
      → HashSet.contains (moves ms (start (new config me))).dispatcher.backend_ready name
        ≡ is_serving t.phase
  unfolding ready_after
  published_connected ms name t quiet found alive =
      ground (arith, quiet, (moves-IsTruthful ms _ new-IsTruthful name t found).1 alive)
