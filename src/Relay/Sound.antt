-- ===== src/Relay/Sound.antt =====
-- src/controller/relay_manager.rs: which relays are active and which pending.
use nexus_net.Base.HashSet
use nexus_net.Base.HashMap
use nexus_net.Base.{
  ℕ, ◌≡◌, refl, min, length, Bool, false, ◌&&◌, ◌||◌, Option, none, some, List, [], ◌∷◌, Eq, arith,
  foldl_inv, foldl_inv_all, All, Option-cases, Bool-cases, when_inv, inl, inr,
}
use nexus_net.Relay.{
  RelayManager, RelayConfig, new, reset, record_failure, activate, on_circuit_ready,
  on_reservation_accepted, expire_one, expire_pending, expired_peers, pending_timeout, close_peer,
  close_address, on_listener_closed, gather, reserve_round, reserve, tick, extract_peer_id,
  has_circuit, relay_target,
}

module _ {PeerId : Type 0} ⦃e : Eq PeerId⦄ (p : PeerId) where
  pub record IsSane (m : RelayManager PeerId) : Type 0 where
    pub apart : (HashSet.contains m.active p && HashMap.contains_key m.pending p) ≡ false
    pub others : (e.beq p m.my_peer_id && HashMap.contains_key m.pending p) ≡ false

  pub new-IsSane : (me : PeerId) → IsSane (new me)
  unfolding new HashSet.contains HashMap.get
  new-IsSane me = ground arith

  pub reset-IsSane : (m : RelayManager PeerId) → IsSane (reset m)
  unfolding reset HashSet.contains HashMap.get
  reset-IsSane m = ground arith

  record_failure-IsSane :
      (max now : ℕ) (q : PeerId) (m : RelayManager PeerId)
      → IsSane m
      → IsSane (record_failure max q now m)
  unfolding record_failure
  record_failure-IsSane max now q m h = ground arith

  activate-IsSane : (q : PeerId) (m : RelayManager PeerId) → IsSane m → IsSane (activate q m)
  unfolding activate
  activate-IsSane q m h =
      ground (arith, HashSet.contains-insert q p m.active, HashMap.get-remove q p m.pending)

  pub on_circuit_ready-IsSane :
      (q : Option PeerId) (m : RelayManager PeerId) → IsSane m → IsSane (on_circuit_ready q m).0
  unfolding on_circuit_ready
  on_circuit_ready-IsSane none m h = h
  on_circuit_ready-IsSane (some q) m h = ground (arith, activate-IsSane q m h)

  pub on_reservation_accepted-IsSane :
      (q : PeerId) (m : RelayManager PeerId) → IsSane m → IsSane (on_reservation_accepted q m)
  unfolding on_reservation_accepted
  on_reservation_accepted-IsSane q m h = activate-IsSane q m h

  expire_one-IsSane :
      (max now : ℕ) (m : RelayManager PeerId) (q : PeerId)
      → IsSane m
      → IsSane (expire_one max now m q)
  unfolding expire_one record_failure
  expire_one-IsSane max now m q h = ground (arith, HashMap.get-remove q p m.pending)

  pub expire_pending-IsSane :
      {Protocol : Type 0} (c : RelayConfig Protocol) (now : ℕ) (m : RelayManager PeerId)
      → IsSane m
      → IsSane (expire_pending c now m)
  unfolding expire_pending
  expire_pending-IsSane c now m h =
      foldl_inv IsSane (expire_one c.max_failures now) (expire_one-IsSane c.max_failures now) m
        (expired_peers (pending_timeout c.retry_interval) now m) h

  close_peer-IsSane :
      (max now : ℕ) (r : RelayManager PeerId × Bool) (q : PeerId)
      → IsSane r.0
      → IsSane (close_peer max now r q).0
  unfolding close_peer record_failure
  close_peer-IsSane max now (m, lost) q h =
      ground (arith, HashSet.contains-remove q p m.active, HashMap.get-remove q p m.pending)

module _ {PeerId Protocol : Type 0} ⦃e : Eq PeerId⦄ (as_p2p : Protocol → Option PeerId)
    (p : PeerId) where
  close_address-IsSane :
      (is_circuit : Protocol → Bool) (max now : ℕ) (r : RelayManager PeerId × Bool)
      (a : List Protocol)
      → IsSane p r.0
      → IsSane p (close_address as_p2p is_circuit max now r a).0
  unfolding close_address
  close_address-IsSane is_circuit max now r a h = elim (Bool-cases (has_circuit is_circuit a)) [
    | inr plain ↦ rw plain h
    | inl circuit ↦ elim (Option-cases (extract_peer_id as_p2p a)) [
      | inl none' ↦ rw (circuit, none') h
      | inr (q, some') ↦ rw (circuit, some') (close_peer-IsSane p max now r q h)
    ]
  ]

  -- If a peer is not both active and pending, and not this node and pending, then neither is it after
  -- `on_listener_closed`.
  pub on_listener_closed-IsSane :
      (is_circuit : Protocol → Bool) (max now : ℕ) (l : List (List Protocol))
      (m : RelayManager PeerId)
      → IsSane p m
      → IsSane p (on_listener_closed as_p2p is_circuit max now l m).0
  unfolding on_listener_closed
  on_listener_closed-IsSane is_circuit max now l m h =
      foldl_inv (λ (r : RelayManager PeerId × Bool). IsSane p r.0)
        (close_address as_p2p is_circuit max now) (close_address-IsSane is_circuit max now)
        (m, false) l h

  -- Candidates are other nodes than this one.
  gather-others :
      (circuit : Protocol) (me : PeerId) (seen : List PeerId) (l : List (List Protocol))
      → All (λ (k : PeerId × List Protocol). e.beq k.0 me ≡ false) (gather as_p2p circuit me seen l)
  unfolding gather
  gather-others circuit me seen [] = tt
  gather-others circuit me seen (a ∷ l) = elim (Option-cases (extract_peer_id as_p2p a)) [
    | inl none' ↦ rw (none', All) (gather-others circuit me seen l)
    | inr (q, some') ↦ elim (Bool-cases (e.beq q me || HashSet.contains seen q)) [
      | inl skip ↦ rw (some', skip, All) (gather-others circuit me seen l)
      | inr keep ↦ rw (some', keep, All) (ground arith, gather-others circuit me (q ∷ seen) l)
    ]
  ]

  reserve_round-IsSane :
      (circuit : Protocol) (max : ℕ) (listen_on : List Protocol → Bool) (now desired : ℕ)
      (me : PeerId) (m : RelayManager PeerId) (k : PeerId × List Protocol)
      → e.beq k.0 me ≡ false
      → (IsSane p m × (m.my_peer_id ≡ me))
      → (IsSane p (reserve_round as_p2p circuit max listen_on now desired m k)
          × ((reserve_round as_p2p circuit max listen_on now desired m k).my_peer_id ≡ me))
  unfolding reserve_round record_failure
  reserve_round-IsSane circuit max listen_on now desired me m (q, addr) other h =
      ground
        (arith, HashMap.get-insert q p now m.pending, e.beq_iff q p, e.beq_iff q me, e.beq_iff p me)

  expire_pending-me :
      (c : RelayConfig Protocol) (now : ℕ) (m : RelayManager PeerId)
      → (expire_pending c now m).my_peer_id ≡ m.my_peer_id
  unfolding expire_pending expire_one record_failure
  expire_pending-me c now m =
      foldl_inv (λ (n : RelayManager PeerId). n.my_peer_id ≡ m.my_peer_id)
        (expire_one c.max_failures now) (λ n q h. h) m
        (expired_peers (pending_timeout c.retry_interval) now m) refl

  -- If a peer is not both active and pending, and not this node and pending, then neither is it after
  -- `tick`.
  pub tick-IsSane :
      (circuit : Protocol) (c : RelayConfig Protocol) (listen_on : List Protocol → Bool) (now : ℕ)
      (m : RelayManager PeerId)
      → IsSane p m
      → IsSane p (tick as_p2p circuit c listen_on now m)
  unfolding tick reserve
  tick-IsSane circuit c listen_on now m h =
      let n = expire_pending c now m in
      let l = gather as_p2p circuit n.my_peer_id [] c.bootstrap_nodes in
      let after =
        foldl_inv_all (λ (k : RelayManager PeerId). IsSane p k × (k.my_peer_id ≡ n.my_peer_id))
          (λ (k : PeerId × List Protocol). e.beq k.0 n.my_peer_id ≡ false)
          (reserve_round as_p2p circuit c.max_failures listen_on now (min relay_target (length l)))
          (reserve_round-IsSane circuit c.max_failures listen_on now (min relay_target (length l))
            n.my_peer_id)
          n l (gather-others circuit n.my_peer_id [] c.bootstrap_nodes)
          (expire_pending-IsSane p c now m h, refl) in
      when_inv (IsSane p) c.needs_relay _ _ (after.0) h
