-- ===== src/Dispatcher/Routing.antt =====
-- src/service_dispatcher.rs: `LocalRoute` and `route_local`. The parser of a `PeerId` is a parameter.
use nexus_net.Base.HashSet
use nexus_net.Base.{
  Bool, false, Option, none, some, List, ◌++◌, Name, bytes, name_eq, Eq, if◌then◌else◌,
}
use nexus_net.Sidecar.Message.{Message, service_request, service_request_to}

pub data LocalRoute : Type 0 where
  local reject : Name → LocalRoute
  remote : LocalRoute

-- `format!("local service {service} is not ready")`
unfoldable pub not_ready : Name → Name
not_ready service = bytes "local service " ++ (service ++ bytes " is not ready")

module _ {PeerId : Type 0} ⦃e : Eq PeerId⦄ (parse : Name → Option PeerId) where
  -- `peer.parse::<PeerId>().ok() == Some(my_peer_id)`
  unfoldable pub is_me : PeerId → Name → Bool
  is_me my_peer_id peer = elim (parse peer) [ none ↦ false | some id ↦ e.beq id my_peer_id ]

  unfoldable pub route_local : List Name → PeerId → Message → LocalRoute
  route_local ready my_peer_id (service_request u service payload) =
      if HashSet.contains ready service then local service else remote
  route_local ready my_peer_id (service_request_to u service peer payload) =
      if is_me my_peer_id peer
      then (if HashSet.contains ready service then local service else reject (not_ready service))
      else remote
  route_local ready my_peer_id _ = remote
