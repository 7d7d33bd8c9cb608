-- ===== src/Relay.antt =====
-- src/controller/relay_manager.rs: the relay reservations of a node. A `PeerId` is a type with an
-- equality, a `Multiaddr` a list of protocols, of which the code asks only whether one names a peer
-- or is `p2p-circuit`. An `Instant` is a number of nanoseconds. Log lines are left out.
pub mod Backoff
pub mod Sound
pub mod Target
pub mod Expiry
use nexus_net.Base.HashSet
use nexus_net.Base.HashMap
use nexus_net.Base.{
  ℕ, zero, suc, ◌+◌, ◌-◌, ◌*◌, ◌%◌, ◌^◌, ◌==◌, min, max, leb, ltb, Bool, true, false, not, ◌||◌,
  ◌&&◌, Option, none, some, is_some, List, [], ◌∷◌, ◌++◌, map, foldl, length, select, Eq,
  if◌then◌else◌,
}
use nexus_net.Registry.State.{from_secs}

abbrev pub relay_target : ℕ
relay_target = 3

-- `(30u64 << shift).min(600)` with `shift = count.saturating_sub(1).min(5)`
unfoldable pub relay_backoff_secs : ℕ → ℕ
relay_backoff_secs count = min (30 * 2 ^ min (count - 1) 5) 600

-- The loop of `extract_peer_id_from_multiaddr`.
unfoldable pub extract_peer_id :
    {PeerId Protocol : Type 0} → (Protocol → Option PeerId) → List Protocol → Option PeerId
extract_peer_id as_p2p [] = none
extract_peer_id as_p2p (x ∷ xs) = elim (as_p2p x) [
  | some id ↦ some id
  | none ↦ extract_peer_id as_p2p xs
]

-- What the manager reads of the configuration.
pub record RelayConfig (Protocol : Type 0) : Type 0 where
  pub needs_relay : Bool
  pub max_failures : ℕ
  pub retry_interval : ℕ
  pub bootstrap_nodes : List (List Protocol)

pub record RelayManager (PeerId : Type 0) : Type 0 where
  pub my_peer_id : PeerId
  pub active : List PeerId
  pub pending : List (PeerId × ℕ)
  pub failures : List (PeerId × ℕ)
  pub backoff : List (PeerId × ℕ)

-- The timeout of `expire_pending`, in nanoseconds: `saturating_mul` on `u64`.
unfoldable pub pending_timeout : ℕ → ℕ
pending_timeout retry_interval = from_secs (max (min (retry_interval * 3) (2 ^ 64 - 1)) 180)

-- The delay that `record_failure` sets after failure number `count`, in nanoseconds.
unfoldable pub failure_delay : ℕ → ℕ → ℕ
failure_delay max_failures count =
    if ltb 0 max_failures && leb max_failures count
    then from_secs 3600
    else from_secs (relay_backoff_secs count)

-- `backoff.get(peer).is_some_and(|until| until > now)`
abbrev pub waits : ℕ → Option ℕ → Bool
waits now none = false
waits now (some until) = ltb now until

module _ {PeerId : Type 0} ⦃e : Eq PeerId⦄ where
  unfoldable pub new : PeerId → RelayManager PeerId
  new my_peer_id = record {
    my_peer_id = my_peer_id;
    active = [];
    pending = [];
    failures = [];
    backoff = [];
  }

  unfoldable pub reset : RelayManager PeerId → RelayManager PeerId
  reset m = record m { active = []; pending = []; failures = []; backoff = [] }

  -- `entry(peer).or_insert(0)`, `*c += 1` on `u32`.
  unfoldable pub count_failure : RelayManager PeerId → PeerId → ℕ
  count_failure m peer = elim (HashMap.get m.failures peer) [ none ↦ 1 | some c ↦ (c + 1) % 2 ^ 32 ]

  unfoldable pub record_failure : ℕ → PeerId → ℕ → RelayManager PeerId → RelayManager PeerId
  record_failure max_failures peer now m =
      let count = count_failure m peer in
      record m {
        failures = HashMap.insert peer count m.failures;
        backoff = HashMap.insert peer (now + failure_delay max_failures count) m.backoff;
      }

  -- The change that a confirmed reservation makes.
  unfoldable pub activate : PeerId → RelayManager PeerId → RelayManager PeerId
  activate peer m = record m {
    active = HashSet.insert peer m.active;
    pending = HashMap.remove peer m.pending;
    failures = HashMap.remove peer m.failures;
    backoff = HashMap.remove peer m.backoff;
  }

  -- `on_circuit_ready`, after the address is read: whether the relay is newly active.
  unfoldable pub on_circuit_ready : Option PeerId → RelayManager PeerId → RelayManager PeerId × Bool
  on_circuit_ready none m = (m, false)
  on_circuit_ready (some peer) m =
      if e.beq peer m.my_peer_id
      then (m, false)
      else (activate peer m, not (HashSet.contains m.active peer))

  -- `ReservationReqAccepted`; other relay client events change nothing.
  unfoldable pub on_reservation_accepted : PeerId → RelayManager PeerId → RelayManager PeerId
  on_reservation_accepted peer m = activate peer m

  -- The peers to expire; they are read before the loop changes anything.
  unfoldable pub expired_peers : ℕ → ℕ → RelayManager PeerId → List PeerId
  expired_peers timeout now m =
      map (λ e. e.0) (select (λ (entry : PeerId × ℕ). leb timeout (now - entry.1)) m.pending)

  unfoldable pub expire_one : ℕ → ℕ → RelayManager PeerId → PeerId → RelayManager PeerId
  expire_one max_failures now m peer =
      record_failure max_failures peer now (record m { pending = HashMap.remove peer m.pending })

  unfoldable pub expire_pending :
      {Protocol : Type 0} → RelayConfig Protocol → ℕ → RelayManager PeerId → RelayManager PeerId
  expire_pending c now m =
      foldl (expire_one c.max_failures now) m
        (expired_peers (pending_timeout c.retry_interval) now m)

  -- A tracked reservation that is lost counts as a failure.
  unfoldable pub close_peer :
      ℕ → ℕ → RelayManager PeerId × Bool → PeerId → RelayManager PeerId × Bool
  close_peer max_failures now (m, lost) peer =
      if HashSet.contains m.active peer || HashMap.contains_key m.pending peer
      then (
        record_failure max_failures peer now (record m {
          active = HashSet.remove peer m.active;
          pending = HashMap.remove peer m.pending;
        }),
        true,
      )
      else (m, lost)

  -- Whether the loop of `tick` passes the peer over.
  abbrev pub passes_over : ℕ → RelayManager PeerId → PeerId → Bool
  passes_over now m peer =
      HashSet.contains m.active peer
      || HashMap.contains_key m.pending peer
      || waits now (HashMap.get m.backoff peer)

-- `addr.iter().any(|p| matches!(p, Protocol::P2pCircuit))`
unfoldable pub has_circuit : {Protocol : Type 0} → (Protocol → Bool) → List Protocol → Bool
has_circuit is_circuit [] = false
has_circuit is_circuit (x ∷ xs) = is_circuit x || has_circuit is_circuit xs

module _ {PeerId Protocol : Type 0} ⦃e : Eq PeerId⦄ (as_p2p : Protocol → Option PeerId)
    (is_circuit : Protocol → Bool) where
  -- A round of `on_listener_closed`.
  unfoldable pub close_address :
      ℕ → ℕ → RelayManager PeerId × Bool → List Protocol → RelayManager PeerId × Bool
  close_address max_failures now r addr =
      if has_circuit is_circuit addr
      then (elim (extract_peer_id as_p2p addr) [
        | none ↦ r
        | some peer ↦ close_peer max_failures now r peer
      ])
      else r

  -- The result says whether a tracked relay was lost.
  unfoldable pub on_listener_closed :
      ℕ → ℕ → List (List Protocol) → RelayManager PeerId → RelayManager PeerId × Bool
  on_listener_closed max_failures now addresses m =
      foldl (close_address max_failures now) (m, false) addresses

module _ {PeerId Protocol : Type 0} ⦃e : Eq PeerId⦄ (as_p2p : Protocol → Option PeerId)
    (circuit : Protocol) where
  -- The candidates of `tick`: the first address of each bootstrap peer but this node.
  unfoldable pub gather :
      PeerId → List PeerId → List (List Protocol) → List (PeerId × List Protocol)
  gather me seen [] = []
  gather me seen (addr ∷ rest) = elim (extract_peer_id as_p2p addr) [
    | none ↦ gather me seen rest
    | some peer ↦
        let skip = gather me seen rest in
        let keep = (peer, addr) ∷ gather me (peer ∷ seen) rest in
        if e.beq peer me || HashSet.contains seen peer then skip else keep
  ]

  -- A round of the loop, given whether `listen_on` succeeds at an address. Once enough relays are
  -- there the rounds change nothing, which is what the `break` comes to.
  unfoldable pub reserve_round :
      ℕ
      → (List Protocol → Bool)
      → ℕ
      → ℕ
      → RelayManager PeerId
      → PeerId × List Protocol
      → RelayManager PeerId
  reserve_round max_failures listen_on now desired m (peer, addr) =
      if leb desired (length m.active + length m.pending)
      then m
      else if passes_over now m peer
      then m
      else if listen_on (addr ++ circuit ∷ [])
      then record m { pending = HashMap.insert peer now m.pending }
      else record_failure max_failures peer now m

  unfoldable pub reserve :
      RelayConfig Protocol → (List Protocol → Bool) → ℕ → RelayManager PeerId → RelayManager PeerId
  reserve c listen_on now m =
      let candidates = gather m.my_peer_id [] c.bootstrap_nodes in
      foldl (reserve_round c.max_failures listen_on now (min relay_target (length candidates))) m
        candidates

  unfoldable pub tick :
      RelayConfig Protocol → (List Protocol → Bool) → ℕ → RelayManager PeerId → RelayManager PeerId
  tick c listen_on now m =
      if c.needs_relay then reserve c listen_on now (expire_pending c now m) else m
