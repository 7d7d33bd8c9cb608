-- ===== src/Dispatcher/Types.antt =====
-- src/service_dispatcher.rs: what the dispatcher, its backends and the controller send each other.
use nexus_net.Base.{ℕ, Bool, List, Name}
use nexus_net.Sidecar.Message.{Message}

-- The identity of a `oneshot` channel.
abbrev pub Channel : Type 0
Channel = ℕ

pub record Response : Type 0 where
  pub success : Bool
  pub data' : List ℕ

pub record BackendStatus : Type 0 where
  pub service : Name
  pub ready : Bool

pub record InboundRequest : Type 0 where
  pub service : Name
  pub payload : List ℕ
  pub response_tx : Channel

pub record ControlCommand : Type 0 where
  pub msg : Message
  pub resp_tx : Channel

pub data BackendCmd : Type 0 where
  on_request : InboundRequest → BackendCmd
  write_reply : Message → BackendCmd

pub data BackendEvent : Type 0 where
  status : BackendStatus → BackendEvent
  control : Name → Message → BackendEvent

abbrev pub initial_backoff : ℕ
initial_backoff = 1

abbrev pub max_backoff : ℕ
max_backoff = 60

abbrev pub backend_queue_capacity : ℕ
backend_queue_capacity = 64
