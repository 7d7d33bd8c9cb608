-- ===== src/Dispatcher/Task.antt =====
-- src/service_dispatcher.rs: `backend_task`, `handshake` and `wait_backoff`, one step for each end
-- of something the task waits for. The commands of a backend stand in its queue.
use nexus_net.Base.HashMap
use nexus_net.Base.{
  ℕ, ◌==◌, leb, Bool, true, false, Option, none, some, List, [], ◌∷◌, ◌++◌, length, Name, name_eq,
  bytes, Result, ok, err, if◌then◌else◌,
}
use nexus_net.Sidecar.Message.{Message, SidecarError, Uuid, hello, reply}
use nexus_net.Dispatcher.Types.{
  Channel, Response, BackendCmd, on_request, write_reply, BackendEvent, status, control,
  initial_backoff, backend_queue_capacity,
}

abbrev pub protocol_version : ℕ
protocol_version = 2

-- What the task waits for; `serving` holds its table `pending`.
pub data Phase : Type 0 where
  connecting greeting resting gone : Phase
  serving : List (Uuid × Channel) → Phase

pub record Task : Type 0 where
  pub service : Name
  pub backoff : ℕ
  pub queue : List BackendCmd
  pub phase : Phase

-- What the task does to others. `forget` drops the sender of a reply channel unused, which its
-- receiver sees as closed.
pub data Effect : Type 0 where
  answer : Channel → Result Name Response → Effect
  forget : Channel → Effect
  write : Message → Effect
  emit : BackendEvent → Effect

pub data Input : Type 0 where
  -- `TcpStream::connect` ends.
  connected : Bool → Input
  -- The two halves of `handshake` end: its write, and the first frame.
  greeted : Result Name (Unit {0}) → Option (Result Name Message) → Input
  -- `framed.next()` ends.
  framed : Option (Result Name Message) → Input
  -- `cmd_rx.recv()` ends, given the next fresh UUID and how a write ends.
  received : Uuid → Result Name (Unit {0}) → Input
  -- All senders of `cmd_rx` are gone.
  disowned : Input
  shut : Input
  -- The delay is over.
  slept : Input

pub data HandshakeError : Type 0 where
  not_written not_read : Name → HandshakeError
  other_version : ℕ → HandshakeError
  not_hello no_frame : HandshakeError

abbrev first_frame : Message → Result HandshakeError (Unit {0})
first_frame (hello version) =
    if version == protocol_version then ok tt else err (other_version version)
first_frame _ = err not_hello

unfoldable pub handshake :
    Result Name (Unit {0}) → Option (Result Name Message) → Result HandshakeError (Unit {0})
handshake (err e) frame = err (not_written e)
handshake (ok done) none = err no_frame
handshake (ok done) (some (err e)) = err (not_read e)
handshake (ok done) (some (ok message)) = first_frame message

unfoldable pub new_task : Name → Task
new_task service = record {
  service = service;
  backoff = initial_backoff;
  queue = [];
  phase = connecting;
}

pub data SendError : Type 0 where
  full closed : SendError

abbrev pub is_gone : Phase → Bool
is_gone connecting = false
is_gone greeting = false
is_gone resting = false
is_gone gone = true
is_gone (serving pending) = false

-- `cmd_tx.try_send`
unfoldable pub try_send : BackendCmd → Task → Result SendError Task
try_send cmd t =
    if is_gone t.phase
    then err closed
    else if leb backend_queue_capacity (length t.queue)
    then err full
    else ok (record t { queue = t.queue ++ cmd ∷ [] })

-- `for (_, tx) in pending.drain() { tx.send(Err(text)) }`
unfoldable pub fail_all : Name → List (Uuid × Channel) → List Effect
fail_all text [] = []
fail_all text ((id, tx) ∷ pending) = answer tx (err text) ∷ fail_all text pending

-- A queue that is dropped drops the reply channels in it.
unfoldable pub forget_all : List BackendCmd → List Effect
forget_all [] = []
forget_all (on_request req ∷ queue) = forget req.response_tx ∷ forget_all queue
forget_all (write_reply msg ∷ queue) = forget_all queue

-- `return`
unfoldable pub leave : Task → Task × List Effect
leave t = (record t { queue = []; phase = gone }, forget_all t.queue)

-- What follows a `break` of the inner loop but for a shutdown.
unfoldable pub lose : List (Uuid × Channel) → Task → Task × List Effect
lose pending t = (
  record t { phase = resting },
  fail_all (bytes "backend disconnected") pending
      ++ emit (status (record { service = t.service; ready = false })) ∷ [],
)

abbrev pub before : List Effect → Task × List Effect → Task × List Effect
before effects (t, more) = (t, effects ++ more)

-- The outcome of a reply: `result.unwrap_or_default()`, and the message of the error.
abbrev pub reply_outcome : Bool → Option (List ℕ) → Option SidecarError → Result Name Response
reply_outcome true none error = ok (record { success = true; data' = [] })
reply_outcome true (some result) error = ok (record { success = true; data' = result })
reply_outcome false result none = err (bytes "backend error")
reply_outcome false result (some error) = err error.message

-- A reply of the backend; one that matches no request is only logged.
unfoldable pub on_reply :
    Uuid → Result Name Response → List (Uuid × Channel) → Task → Task × List Effect
on_reply id outcome pending t = elim (HashMap.get pending id) [
  | none ↦ (t, [])
  | some tx ↦ (record t { phase = serving (HashMap.remove id pending) }, answer tx outcome ∷ [])
]

abbrev pub relay : Message → Task → Task × List Effect
relay msg t = (t, emit (control t.service msg) ∷ [])

unfoldable pub on_frame : Message → List (Uuid × Channel) → Task → Task × List Effect
on_frame (reply id ok' result error) pending t =
    on_reply id (reply_outcome ok' result error) pending t
on_frame msg pending t = relay msg t
