-- ===== src/Dispatcher/Answers.antt =====
-- src/service_dispatcher.rs: the reply to a control message.
use nexus_net.Base.HashMap
use nexus_net.Base.{
  ℕ, ◌≡◌, Bool, true, false, Option, none, some, List, [], ◌∷◌, ◌++◌, ◌≤◌, ◌<◌, length, Name,
  name_eq, Result, ok, err, Eq,
}
use nexus_net.Sidecar.Message.{Message, SidecarError, Uuid, reply}
use nexus_net.Dispatcher.Types.{Response, write_reply, backend_queue_capacity}
use nexus_net.Dispatcher.Replies.{Waited, closed}
use nexus_net.Dispatcher.Task.{Task, SendError, full, is_gone}
use nexus_net.Dispatcher.Router.{Dispatcher}
use nexus_net.Dispatcher.Control.{Forwarded, answered, asked_controller, asked_backend, conclude}

-- A reply to the request with that id: a result, or an error and no result.
pub data Answers (u : Uuid) : Message → Type 0 where
  with_result : (result : List ℕ) → Answers u (reply u true (some result) none)
  with_error : (error : SidecarError) → Answers u (reply u false none (some error))

-- The reply is made at once.
abbrev pub is_early : Forwarded → Bool
is_early (answered msg) = true
is_early (asked_controller cmd budget) = false
is_early (asked_backend target req) = false

module _ {PeerId : Type 0} ⦃e : Eq PeerId⦄ (parse : Name → Option PeerId) (lossy : List ℕ → Name)
    (from_controller : Waited (List ℕ)) (taken : Result SendError Task)
    (from_backend : Waited Response) where
  -- The reply `message` is put into the queue of `origin`, or lost.
  pub record IsDelivered (u : Uuid) (origin : Task) (f : Forwarded) : Type 0 where
    pub message : Message
    pub answers : Answers u message
    pub written :
        is_gone origin.phase ≡ false
        → (is_early f ≡ true → length origin.queue < backend_queue_capacity)
        → conclude lossy u from_controller taken from_backend origin f
          ≡ ok (record origin { queue = origin.queue ++ write_reply message ∷ [] })
    pub overflown :
        is_gone origin.phase ≡ false
        → is_early f ≡ true
        → backend_queue_capacity ≤ length origin.queue
        → conclude lossy u from_controller taken from_backend origin f ≡ err full
    pub dropped :
        is_gone origin.phase ≡ true
        → conclude lossy u from_controller taken from_backend origin f ≡ err SendError.closed
