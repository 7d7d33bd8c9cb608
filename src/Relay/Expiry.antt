-- ===== src/Relay/Expiry.antt =====
-- src/controller/relay_manager.rs: what `expire_pending` does to one reservation.
use nexus_net.Base.HashSet
use nexus_net.Base.HashMap
use nexus_net.Base.{
  ℕ, ◌+◌, ◌-◌, ◌≤◌, ◌≡◌, refl, leb, true, ◌||◌, if◌then◌else◌, arith, none, some, List, [], ◌∷◌, Eq,
  foldl, map, select,
}
use nexus_net.Relay.{
  RelayManager, RelayConfig, record_failure, expire_pending, expire_one, expired_peers,
  pending_timeout, waits, count_failure, failure_delay,
}
use nexus_net.Relay.Backoff.{failure_delay_bounds}

module _ {PeerId : Type 0} ⦃e : Eq PeerId⦄ (p : PeerId) (now : ℕ) where
  expired_contains :
      (timeout : ℕ) (l : List (PeerId × ℕ)) (since : ℕ)
      → HashMap.get l p ≡ some since
      → timeout ≤ now - since
      → HashSet.contains (map (λ e. e.0) (select (λ (k : PeerId × ℕ). leb timeout (now - k.1)) l)) p
        ≡ true
  unfolding HashMap.get HashSet.contains
  expired_contains timeout [] since g h = cc
  expired_contains timeout ((q, s) ∷ l) since g h =
      ground (arith, e.beq_iff q p, expired_contains timeout l since)

  expire_loop :
      (limit : ℕ) (l : List PeerId) (m : RelayManager PeerId)
      → (HashMap.get (foldl (expire_one limit now) m l).pending p
          ≡ (if HashSet.contains l p then none else HashMap.get m.pending p))
        × ((HashSet.contains l p || waits now (HashMap.get m.backoff p))
            ≡ waits now (HashMap.get (foldl (expire_one limit now) m l).backoff p))
  unfolding expire_one record_failure HashSet.contains
  expire_loop limit [] m = (refl, refl)
  expire_loop limit (q ∷ l) m = ground (
    arith,
    e.beq_iff q p,
    expire_loop limit l (expire_one limit now m q),
    HashMap.get-remove q p m.pending,
    HashMap.get-insert q p
        (now
          + failure_delay limit
              (count_failure (record m { pending = HashMap.remove q m.pending }) q))
        m.backoff,
    failure_delay_bounds limit (count_failure (record m { pending = HashMap.remove q m.pending }) q)
        (count_failure (record m { pending = HashMap.remove q m.pending }) q) (omega arith),
  )

  -- A reservation that was not confirmed within the timeout is given up, and its relay waits.
  pub expire_pending_old :
      {Protocol : Type 0} (c : RelayConfig Protocol) (m : RelayManager PeerId) (since : ℕ)
      → HashMap.get m.pending p ≡ some since
      → pending_timeout c.retry_interval ≤ now - since
      → (HashMap.get (expire_pending c now m).pending p ≡ none)
        × (waits now (HashMap.get (expire_pending c now m).backoff p) ≡ true)
  unfolding expire_pending expired_peers
  expire_pending_old c m since g h =
      let timeout = pending_timeout c.retry_interval in
      ground (
        arith,
        expired_contains timeout m.pending since g h,
        expire_loop c.max_failures (expired_peers timeout now m) m,
      )
