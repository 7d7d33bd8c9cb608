-- ===== src/Config/Schema.antt =====
-- src/config.rs: the records of `NodeConfig`, field by field, with their `Default`s, and the
-- constants of src/limits.rs. `has_public_address` is runtime state that the file never holds.
use nexus_net.Base.{ℕ, ◌+◌, ◌-◌, ◌*◌, ◌^◌, Bool, true, false, Option, none, List, [], Name, bytes}

-- `std::net::IpAddr`, by its octets.
pub data IpAddr : Type 0 where
  v4 : List ℕ → IpAddr
  v6 : List ℕ → IpAddr

abbrev pub dht_max_record_bytes : ℕ
dht_max_record_bytes = 2 ^ 20

abbrev pub kad_max_packet_bytes : ℕ
kad_max_packet_bytes = dht_max_record_bytes + 64 * 1024

abbrev pub old_kad_packet_bytes : ℕ
old_kad_packet_bytes = 16 * 1024

abbrev pub old_compat_record_bytes : ℕ
old_compat_record_bytes = old_kad_packet_bytes - 2 * 1024

abbrev pub max_message_bytes_limit : ℕ
max_message_bytes_limit = 64 * 2 ^ 20

pub record NodeInfo : Type 0 where
  pub name : Name
  pub description : Name
  pub allow_bootstrap : Bool
  pub accept_bootstrap_providers : Bool

pub record NetworkConfig : Type 0 where
  pub ipv4_enabled : Bool
  pub ipv4_address : Option IpAddr
  pub ipv6_enabled : Bool
  pub ipv6_address : Option IpAddr
  pub port : ℕ
  pub has_public_address : Bool

pub record RegistryService : Type 0 where
  pub max_inflight_dht : ℕ

pub record PingService : Type 0 where
  pub enabled : Bool
  pub interval_secs : ℕ
  pub with_timeout : ℕ
  pub max_failures : ℕ

pub record KademliaService (Addr : Type 0) : Type 0 where
  pub enabled : Bool
  pub record_ttl_seconds : ℕ
  pub replication_factor : ℕ
  pub query_timeout_seconds : ℕ
  pub bootstrap_nodes : List Addr

pub record RelayService : Type 0 where
  pub retry_interval_secs : ℕ
  pub max_failures : ℕ

pub record LocalServiceEntry : Type 0 where
  pub name : Name
  pub port : ℕ
  pub require_auth : Bool

pub record DispatcherConfig : Type 0 where
  pub enabled : Bool
  pub query_timeout_secs : ℕ
  pub types_sync_secs : ℕ
  pub max_inflight_dht : ℕ
  pub max_request_bytes : ℕ
  pub max_response_bytes : ℕ
  pub local_services : List LocalServiceEntry

pub record ServicesConfig (Addr : Type 0) : Type 0 where
  pub ping : PingService
  pub kademlia : KademliaService Addr
  pub dispatcher : DispatcherConfig
  pub registry : RegistryService
  pub relay : RelayService

pub record CryptoConfig : Type 0 where
  pub pq_transport_enabled : Bool
  pub pq_identity_enabled : Bool
  pub pq_required : Bool

pub record AuthNetworkConfig : Type 0 where
  pub authority : Name

pub record AuthConfig : Type 0 where
  pub network : Name
  pub networks : List (Name × AuthNetworkConfig)

pub record CompatConfig : Type 0 where
  pub max_record_bytes : ℕ

pub record NodeConfig (Addr : Type 0) : Type 0 where
  pub node : NodeInfo
  pub network : NetworkConfig
  pub services : ServicesConfig Addr
  pub crypto : CryptoConfig
  pub auth : AuthConfig
  pub compat : CompatConfig

abbrev pub default_network : NetworkConfig
default_network = record {
  ipv4_enabled = false;
  ipv4_address = none;
  ipv6_enabled = false;
  ipv6_address = none;
  port = 5000;
  has_public_address = false;
}

abbrev pub default_ping : PingService
default_ping = record { enabled = true; interval_secs = 15; with_timeout = 10; max_failures = 2 }

abbrev pub default_kademlia : {Addr : Type 0} → KademliaService Addr
default_kademlia = record {
  enabled = true;
  record_ttl_seconds = 3600;
  replication_factor = 20;
  query_timeout_seconds = 60;
  bootstrap_nodes = [];
}

abbrev pub default_dispatcher : DispatcherConfig
default_dispatcher = record {
  enabled = true;
  query_timeout_secs = 60;
  types_sync_secs = 300;
  max_inflight_dht = 4;
  max_request_bytes = 16 * 2 ^ 20;
  max_response_bytes = 16 * 2 ^ 20;
  local_services = [];
}

abbrev pub default_services : {Addr : Type 0} → ServicesConfig Addr
default_services = record {
  ping = default_ping;
  kademlia = default_kademlia;
  dispatcher = default_dispatcher;
  registry = record { max_inflight_dht = 4 };
  relay = record { retry_interval_secs = 60; max_failures = 3 };
}

-- `NodeConfig::default()`, for a default node name and description.
abbrev pub default_config : {Addr : Type 0} → Name → Name → NodeConfig Addr
default_config name description = record {
  node = record {
    name = name;
    description = description;
    allow_bootstrap = true;
    accept_bootstrap_providers = false;
  };
  network = default_network;
  services = default_services;
  crypto = record {
    pq_transport_enabled = false;
    pq_identity_enabled = false;
    pq_required = false;
  };
  auth = record { network = bytes "none"; networks = [] };
  compat = record { max_record_bytes = old_compat_record_bytes };
}
