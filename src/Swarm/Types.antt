-- ===== src/Swarm/Types.antt =====
-- src/network/mod.rs: `NetworkError`. src/service_protocol.rs: `Request`.
use nexus_net.Base.{List, ℕ, Name}

pub data NetworkError : Type 0 where
  actor_gone disabled reloaded : NetworkError
  build_failed kad_failed request_failed transport_failed : Name → NetworkError

pub record Request : Type 0 where
  pub service : Name
  pub payload : List ℕ
