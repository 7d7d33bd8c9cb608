-- ===== src/Config/Access.antt =====
-- src/config.rs: the accessors of `ConfigHandle` that compute, over a snapshot of the shared
-- configuration, and the setters that the controller uses.
use nexus_net.Base.HashMap
use nexus_net.Base.{
  ℕ, max, Bool, false, not, ◌&&◌, ◌||◌, Option, none, some, List, [], ◌∷◌, map, Name, select,
  name_beq, name_eq,
}
use nexus_net.Config.Schema.{NodeConfig, LocalServiceEntry}

unfoldable pub any_requires_auth : Name → List LocalServiceEntry → Bool
any_requires_auth name [] = false
any_requires_auth name (s ∷ rest) =
    name_beq s.name name && s.require_auth || any_requires_auth name rest

module _ {Addr : Type 0} where
  unfoldable pub dispatcher_types_sync_interval : NodeConfig Addr → ℕ
  dispatcher_types_sync_interval c = max c.services.dispatcher.types_sync_secs 1

  unfoldable pub auth_authority : NodeConfig Addr → Name → Option Name
  auth_authority c network = elim (HashMap.get c.auth.networks network) [
    | none ↦ none
    | some n ↦ some n.authority
  ]

  unfoldable pub auth_required_services : NodeConfig Addr → List Name
  auth_required_services c =
      map (λ s. s.name) (select (λ s. s.require_auth) c.services.dispatcher.local_services)

  unfoldable pub service_requires_auth : NodeConfig Addr → Name → Bool
  service_requires_auth c name = any_requires_auth name c.services.dispatcher.local_services

  unfoldable pub pq_enabled : NodeConfig Addr → Bool
  pq_enabled c = c.crypto.pq_transport_enabled || c.crypto.pq_identity_enabled

  unfoldable pub needs_relay : NodeConfig Addr → Bool
  needs_relay c =
      not (c.network.ipv4_enabled && c.network.ipv6_enabled) || not c.network.has_public_address

  unfoldable pub set_has_public_address : Bool → NodeConfig Addr → NodeConfig Addr
  set_has_public_address present c = record c {
    network = record (c.network) { has_public_address = present };
  }

  unfoldable pub set_bootstrap_nodes : List Addr → NodeConfig Addr → NodeConfig Addr
  set_bootstrap_nodes nodes c = record c {
    services = record (c.services) {
      kademlia = record (c.services.kademlia) { bootstrap_nodes = nodes };
    };
  }
