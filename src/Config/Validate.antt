-- ===== src/Config/Validate.antt =====
-- src/config.rs: `NodeConfig::validate`. Each message is a constructor of `ConfigError`.
use nexus_net.Base.HashSet
use nexus_net.Base.{
  ℕ, Bool, not, ◌&&◌, ◌||◌, List, [], ◌∷◌, ◌++◌, Name, Result, ok, ◌>>◌, refuse_if, ltb, leb, ◌==◌,
  name_eq,
}
use nexus_net.Config.Schema.{
  NodeConfig, ServicesConfig, LocalServiceEntry, CryptoConfig, CompatConfig, dht_max_record_bytes,
  max_message_bytes_limit,
}

pub data ConfigError : Type 0 where
  port_out_of_range : ℕ → ConfigError
  ping_interval_zero ping_timeout_zero record_ttl_zero kad_timeout_zero : ConfigError
  dispatcher_timeout_zero types_sync_zero registry_inflight max_record_bytes_range : ConfigError
  dispatcher_inflight request_bytes_range response_bytes_range relay_interval_zero : ConfigError
  duplicate_service service_port_zero : Name → ConfigError
  pq_required_needs_transport pq_identity_needs_transport : ConfigError

-- `(lo..=hi).contains(&x)`
abbrev pub in_range : ℕ → ℕ → ℕ → Bool
in_range lo hi x = leb lo x && leb x hi

-- The loop over `local_services`; `names` holds the names that it has passed.
unfoldable pub check_services : List Name → List LocalServiceEntry → Result ConfigError (Unit {0})
check_services names [] = ok tt
check_services names (service ∷ rest) = do
  refuse_if (HashSet.contains names service.name) (duplicate_service service.name)
  refuse_if (service.port == 0) (service_port_zero service.name)
  check_services (names ++ service.name ∷ []) rest

unfoldable pub check_crypto : CryptoConfig → Result ConfigError (Unit {0})
check_crypto c = do
  refuse_if (c.pq_required && not c.pq_transport_enabled) pq_required_needs_transport
  refuse_if (c.pq_identity_enabled && not c.pq_transport_enabled) pq_identity_needs_transport

module _ {Addr : Type 0} where
  unfoldable pub check_intervals : ServicesConfig Addr → Result ConfigError (Unit {0})
  check_intervals s = do
    refuse_if (s.ping.enabled && s.ping.interval_secs == 0) ping_interval_zero
    refuse_if (s.ping.enabled && s.ping.with_timeout == 0) ping_timeout_zero
    refuse_if (s.kademlia.enabled && s.kademlia.record_ttl_seconds == 0) record_ttl_zero
    refuse_if (s.kademlia.enabled && s.kademlia.query_timeout_seconds == 0) kad_timeout_zero
    refuse_if (s.dispatcher.enabled && s.dispatcher.query_timeout_secs == 0) dispatcher_timeout_zero
    refuse_if (s.dispatcher.enabled && s.dispatcher.types_sync_secs == 0) types_sync_zero

  unfoldable pub check_limits : ServicesConfig Addr → CompatConfig → Result ConfigError (Unit {0})
  check_limits s compat = do
    refuse_if (not (in_range 1 16 s.registry.max_inflight_dht)) registry_inflight
    refuse_if (compat.max_record_bytes == 0 || ltb dht_max_record_bytes compat.max_record_bytes)
        max_record_bytes_range
    refuse_if (not (in_range 1 16 s.dispatcher.max_inflight_dht)) dispatcher_inflight
    refuse_if
        (s.dispatcher.max_request_bytes == 0
          || ltb max_message_bytes_limit s.dispatcher.max_request_bytes)
        request_bytes_range
    refuse_if
        (s.dispatcher.max_response_bytes == 0
          || ltb max_message_bytes_limit s.dispatcher.max_response_bytes)
        response_bytes_range
    refuse_if (s.relay.retry_interval_secs == 0) relay_interval_zero

  unfoldable pub validate : NodeConfig Addr → Result ConfigError (Unit {0})
  validate c = do
    refuse_if (ltb 65535 c.network.port) (port_out_of_range c.network.port)
    check_intervals c.services
    check_limits c.services c.compat
    check_services [] c.services.dispatcher.local_services
    check_crypto c.crypto
