-- ===== src/Config/Accepts.antt =====
-- What `validate` of src/config.rs accepts.
use nexus_net.Base.HashSet
use nexus_net.Base.{
  ◌≤◌, ◌<◌, ◌≡◌, ◌↔◌, true, false, List, [], ◌∷◌, ◌++◌, Name, ok, arith, refl, name_eq, ◌≢◌,
}
use nexus_net.Config.Schema.{
  NodeConfig, ServicesConfig, LocalServiceEntry, dht_max_record_bytes, max_message_bytes_limit,
}
use nexus_net.Config.Validate.{
  validate, check_services, check_intervals, check_limits, check_crypto,
}

-- Names that are new to `names` and differ from one another, at ports that are not 0.
abbrev pub AreServed : List Name → List LocalServiceEntry → Type 0
AreServed names [] = Unit {0}
AreServed names (s ∷ rest) =
    (HashSet.contains names s.name ≡ false) × (s.port ≢ 0) × AreServed (names ++ s.name ∷ []) rest

-- What `validate` tests, field by field. (Not that another network than `none` has its authority, nor
-- that a service has a valid name.)
pub record IsUsable {Addr : Type 0} (c : NodeConfig Addr) : Type 0 where
  pub port : c.network.port ≤ 65535
  pub ping :
      c.services.ping.enabled ≡ true
      → (0 < c.services.ping.interval_secs) × (0 < c.services.ping.with_timeout)
  pub kademlia :
      c.services.kademlia.enabled ≡ true
      → (0 < c.services.kademlia.record_ttl_seconds)
        × (0 < c.services.kademlia.query_timeout_seconds)
  pub dispatcher :
      c.services.dispatcher.enabled ≡ true
      → (0 < c.services.dispatcher.query_timeout_secs) × (0 < c.services.dispatcher.types_sync_secs)
  pub registry_inflight :
      (1 ≤ c.services.registry.max_inflight_dht) × (c.services.registry.max_inflight_dht ≤ 16)
  pub dispatcher_inflight :
      (1 ≤ c.services.dispatcher.max_inflight_dht) × (c.services.dispatcher.max_inflight_dht ≤ 16)
  pub record_bytes :
      (1 ≤ c.compat.max_record_bytes) × (c.compat.max_record_bytes ≤ dht_max_record_bytes)
  pub request_bytes :
      (1 ≤ c.services.dispatcher.max_request_bytes)
      × (c.services.dispatcher.max_request_bytes ≤ max_message_bytes_limit)
  pub response_bytes :
      (1 ≤ c.services.dispatcher.max_response_bytes)
      × (c.services.dispatcher.max_response_bytes ≤ max_message_bytes_limit)
  pub relay : 0 < c.services.relay.retry_interval_secs
  pub services : AreServed [] c.services.dispatcher.local_services
  pub crypto :
      (c.crypto.pq_required ≡ true → c.crypto.pq_transport_enabled ≡ true)
      × (c.crypto.pq_identity_enabled ≡ true → c.crypto.pq_transport_enabled ≡ true)

check_services_sound :
    (names : List Name) (l : List LocalServiceEntry)
    → check_services names l ≡ ok tt
    → AreServed names l
unfolding check_services
check_services_sound names [] h = tt
check_services_sound names (s ∷ rest) h =
    ground (arith, check_services_sound (names ++ s.name ∷ []) rest)

check_services_complete :
    (names : List Name) (l : List LocalServiceEntry)
    → AreServed names l
    → check_services names l ≡ ok tt
unfolding check_services
check_services_complete names [] h = refl
check_services_complete names (s ∷ rest) h =
    ground (arith, check_services_complete (names ++ s.name ∷ []) rest h.2)

module _ {Addr : Type 0} where
  intervals-IsUsable : (c : NodeConfig Addr) → IsUsable c → check_intervals c.services ≡ ok tt
  unfolding check_intervals
  intervals-IsUsable c u = ground (arith, u.ping, u.kademlia, u.dispatcher)

  limits-IsUsable : (c : NodeConfig Addr) → IsUsable c → check_limits c.services c.compat ≡ ok tt
  unfolding check_limits
  limits-IsUsable c u = ground arith

  crypto-IsUsable : (c : NodeConfig Addr) → IsUsable c → check_crypto c.crypto ≡ ok tt
  unfolding check_crypto
  crypto-IsUsable c u = ground (arith, u.crypto.0, u.crypto.1)

  validate-IsUsable : (c : NodeConfig Addr) → IsUsable c → validate c ≡ ok tt
  unfolding validate
  validate-IsUsable c u = ground (
    arith,
    intervals-IsUsable c u,
    limits-IsUsable c u,
    crypto-IsUsable c u,
    check_services_complete [] c.services.dispatcher.local_services u.services,
  )

  validate_parts :
      (c : NodeConfig Addr)
      → validate c ≡ ok tt
      → (c.network.port ≤ 65535)
        × (check_intervals c.services ≡ ok tt)
        × (check_limits c.services c.compat ≡ ok tt)
        × (check_services [] c.services.dispatcher.local_services ≡ ok tt)
        × (check_crypto c.crypto ≡ ok tt)
  unfolding validate
  validate_parts c h = ground arith

  intervals_sound :
      (s : ServicesConfig Addr)
      → check_intervals s ≡ ok tt
      → (s.ping.enabled ≡ true → (0 < s.ping.interval_secs) × (0 < s.ping.with_timeout))
        × (s.kademlia.enabled ≡ true
            → (0 < s.kademlia.record_ttl_seconds) × (0 < s.kademlia.query_timeout_seconds))
        × (s.dispatcher.enabled ≡ true
            → (0 < s.dispatcher.query_timeout_secs) × (0 < s.dispatcher.types_sync_secs))
  unfolding check_intervals
  intervals_sound s h = ground arith

  pub usable : (c : NodeConfig Addr) → validate c ≡ ok tt → IsUsable c
  unfolding check_limits check_crypto
  usable c h =
      let (port, intervals, limits, services, crypto) = validate_parts c h in
      let (ping, kademlia, dispatcher) = intervals_sound c.services intervals in
      record {
        port = port;
        ping = ping;
        kademlia = kademlia;
        dispatcher = dispatcher;
        registry_inflight = ground arith;
        dispatcher_inflight = ground arith;
        record_bytes = ground arith;
        request_bytes = ground arith;
        response_bytes = ground arith;
        relay = ground arith;
        services = check_services_sound [] c.services.dispatcher.local_services services;
        crypto = ground arith;
      }

  -- `validate` accepts exactly the configurations that pass its tests.
  pub validate-eq-ok_iff : (c : NodeConfig Addr) → (validate c ≡ ok tt) ↔ IsUsable c
  validate-eq-ok_iff c = (usable c, validate-IsUsable c)
