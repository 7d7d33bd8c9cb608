-- ===== src/Relay/Backoff.antt =====
-- src/controller/relay_manager.rs: how long a failing relay waits.
use native.Mathlib.Nat.{pow-le-pow_right, one-le-pow}
use nexus_net.Base.HashMap
use nexus_net.Base.{
  ℕ, ◌+◌, ◌-◌, ◌^◌, ◌≤◌, ◌≡◌, refl, min, length, Bool, true, arith, Option, List, [], Eq, foldl_inv,
}
use nexus_net.Registry.State.{from_secs}
use nexus_net.Relay.{
  relay_backoff_secs, failure_delay, RelayManager, RelayConfig, record_failure, reserve_round,
  reserve, gather, waits, count_failure, relay_target,
}

relay_backoff_secs_mono : (a b : ℕ) → a ≤ b → relay_backoff_secs a ≤ relay_backoff_secs b
unfolding relay_backoff_secs
relay_backoff_secs_mono a b h =
    let shift : min (a - 1) 5 ≤ min (b - 1) 5 = omega arith in
    let power : 2 ^ min (a - 1) 5 ≤ 2 ^ min (b - 1) 5 = pow-le-pow_right (omega arith) shift in
    omega (arith, power)

relay_backoff_secs_bounds : (a : ℕ) → (30 ≤ relay_backoff_secs a) × (relay_backoff_secs a ≤ 600)
unfolding relay_backoff_secs
relay_backoff_secs_bounds a =
    let power : 1 ≤ 2 ^ min (a - 1) 5 = one-le-pow (min (a - 1) 5) 2 (omega arith) in
    (omega (arith, power), omega arith)

-- The delay lies between half a minute and an hour, and more failures never make it shorter.
pub failure_delay_bounds :
    (limit a b : ℕ)
    → a ≤ b
    → (from_secs 30 ≤ failure_delay limit a)
      × (failure_delay limit a ≤ failure_delay limit b)
      × (failure_delay limit b ≤ from_secs 3600)
unfolding failure_delay
failure_delay_bounds limit a b h =
    ground
      (arith, relay_backoff_secs_bounds a, relay_backoff_secs_bounds b, relay_backoff_secs_mono a b)

module _ {PeerId Protocol : Type 0} ⦃e : Eq PeerId⦄ (as_p2p : Protocol → Option PeerId)
    (circuit : Protocol) (p : PeerId) (now : ℕ) where
  -- The peer waits still, and its reservation is as it was.
  pub record Untouched (m n : RelayManager PeerId) : Type 0 where
    pub waiting : waits now (HashMap.get n.backoff p) ≡ true
    pub same : HashMap.get n.pending p ≡ HashMap.get m.pending p

  record_failure-Untouched :
      (max : ℕ) (q : PeerId) (m n : RelayManager PeerId)
      → Untouched m n
      → Untouched m (record_failure max q now n)
  unfolding record_failure
  record_failure-Untouched max q m n h = ground (
    arith,
    e.beq_iff q p,
    HashMap.get-insert q p (now + failure_delay max (count_failure n q)) n.backoff,
    failure_delay_bounds max (count_failure n q) (count_failure n q) (omega arith),
  )

  reserve_round-Untouched :
      (max : ℕ) (listen_on : List Protocol → Bool) (desired : ℕ) (m n : RelayManager PeerId)
      (k : PeerId × List Protocol)
      → Untouched m n
      → Untouched m (reserve_round as_p2p circuit max listen_on now desired n k)
  unfolding reserve_round
  reserve_round-Untouched max listen_on desired m n (q, addr) h = ground (
    arith,
    e.beq_iff q p,
    HashMap.get-insert q p now n.pending,
    record_failure-Untouched max q m n h,
  )

  -- While its backoff lasts, a relay gets no new reservation, whatever the bootstrap list holds.
  pub reserve-waits :
      (c : RelayConfig Protocol) (listen_on : List Protocol → Bool) (m : RelayManager PeerId)
      → waits now (HashMap.get m.backoff p) ≡ true
      → Untouched m (reserve as_p2p circuit c listen_on now m)
  unfolding reserve
  reserve-waits c listen_on m h =
      let l = gather as_p2p circuit m.my_peer_id [] c.bootstrap_nodes in
      foldl_inv (Untouched m)
        (reserve_round as_p2p circuit c.max_failures listen_on now (min relay_target (length l)))
        (λ n k u.
          reserve_round-Untouched c.max_failures listen_on (min relay_target (length l)) m n k u)
        m l (record { waiting = h; same = refl })
