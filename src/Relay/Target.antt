-- ===== src/Relay/Target.antt =====
-- src/controller/relay_manager.rs: how many reservations `tick` makes, and what `expire_pending`
-- leaves.
use nexus_net.Base.HashMap
use nexus_net.Base.{
  ℕ, ◌+◌, ◌≤◌, min, max, length, Bool, arith, Option, List, [], Eq, foldl_inv, when_inv,
}
use nexus_net.Relay.{
  RelayManager, RelayConfig, record_failure, reserve_round, reserve, tick, gather, relay_target,
  expire_pending, expire_one, expired_peers, pending_timeout,
}

abbrev pub reservations : {PeerId : Type 0} → RelayManager PeerId → ℕ
reservations m = length m.active + length m.pending

module _ {PeerId Protocol : Type 0} ⦃e : Eq PeerId⦄ (as_p2p : Protocol → Option PeerId)
    (circuit : Protocol) where
  reserve_round_target :
      (limit start : ℕ) (listen_on : List Protocol → Bool) (now desired : ℕ)
      (m : RelayManager PeerId) (k : PeerId × List Protocol)
      → reservations m ≤ max start desired
      → reservations (reserve_round as_p2p circuit limit listen_on now desired m k)
        ≤ max start desired
  unfolding reserve_round record_failure HashMap.insert
  reserve_round_target limit start listen_on now desired m (q, addr) h =
      ground (arith, HashMap.length-remove-le q m.pending)

  expire_one_fewer :
      (limit now : ℕ) (m : RelayManager PeerId) (q : PeerId)
      → reservations (expire_one limit now m q) ≤ reservations m
  unfolding expire_one record_failure
  expire_one_fewer limit now m q = ground (arith, HashMap.length-remove-le q m.pending)

  expire_pending_fewer :
      (c : RelayConfig Protocol) (now : ℕ) (m : RelayManager PeerId)
      → reservations (expire_pending c now m) ≤ reservations m
  unfolding expire_pending
  expire_pending_fewer c now m =
      foldl_inv (λ (n : RelayManager PeerId). reservations n ≤ reservations m)
        (expire_one c.max_failures now)
        (λ n q h. omega (arith, expire_one_fewer c.max_failures now n q, h)) m
        (expired_peers (pending_timeout c.retry_interval) now m) (omega arith)

  -- `tick` never goes beyond three relays, active or pending, unless there were more before.
  pub tick_target :
      (c : RelayConfig Protocol) (listen_on : List Protocol → Bool) (now : ℕ)
      (m : RelayManager PeerId)
      → reservations (tick as_p2p circuit c listen_on now m) ≤ max (reservations m) relay_target
  unfolding tick reserve
  tick_target c listen_on now m =
      let n = expire_pending c now m in
      let l = gather as_p2p circuit n.my_peer_id [] c.bootstrap_nodes in
      let desired = min relay_target (length l) in
      when_inv (λ (k : RelayManager PeerId). reservations k ≤ max (reservations m) relay_target)
        c.needs_relay _ _
        (omega (
          arith,
          foldl_inv (λ (k : RelayManager PeerId). reservations k ≤ max (reservations m) desired)
              (reserve_round as_p2p circuit c.max_failures listen_on now desired)
              (reserve_round_target c.max_failures (reservations m) listen_on now desired) n l
              (omega (arith, expire_pending_fewer c now m)),
        ))
        (omega arith)
