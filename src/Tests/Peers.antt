-- ===== src/Tests/Peers.antt =====
-- src/controller/relay_manager.rs and src/controller/peer_tracker.rs at concrete inputs. A peer
-- is a number, an address of a relay a list of numbers, of which those from 10 on name a peer and
-- 0 is a circuit.
use nexus_net.Base.HashMap
use nexus_net.Base.{
  ℕ, ◌≡◌, ◌≤◌, ◌⊎◌, max, refl, Bool, true, Option, none, some, List, [], ◌∷◌, nat_eq, leb, ◌==◌,
  if◌then◌else◌,
}
use nexus_net.Registry.State.{from_secs}
use nexus_net.Relay.{RelayManager, RelayConfig, tick, reserve, relay_target}
use nexus_net.Relay.Target.{reservations, tick_target}
use nexus_net.Relay.Backoff.{Untouched, reserve-waits}
use nexus_net.Tracker.{PeerTracker, best_peer}
use nexus_net.Tracker.Best.{NoneKnown, Finds, best_peer_cases}

abbrev as_p2p : ℕ → Option ℕ
as_p2p protocol = if leb 10 protocol then some protocol else none

abbrev is_circuit : ℕ → Bool
is_circuit protocol = protocol == 0

abbrev config : RelayConfig ℕ
config = record {
  needs_relay = true;
  max_failures = 3;
  retry_interval = 60;
  bootstrap_nodes = (1 ∷ 11 ∷ []) ∷ (1 ∷ 12 ∷ []) ∷ (2 ∷ 11 ∷ []) ∷ (1 ∷ 13 ∷ []) ∷ [];
}

-- Peer 11 has a pending reservation since 5, and peer 12 waits.
abbrev manager : RelayManager ℕ
manager = record {
  my_peer_id = 10;
  active = [];
  pending = (11, 5) ∷ [];
  failures = (12, 1) ∷ [];
  backoff = (12, from_secs 900) ∷ [];
}

abbrev listens : List ℕ → Bool
listens addr = true

tick_target_example :
    reservations (tick as_p2p 0 config listens (from_secs 10) manager)
    ≤ max (reservations manager) relay_target
tick_target_example = tick_target as_p2p 0 config listens (from_secs 10) manager

reserve-waits_example :
    Untouched as_p2p 0 12
      (from_secs 10)
      manager
      (reserve as_p2p 0 config listens (from_secs 10) manager)
unfolding HashMap.get
reserve-waits_example = reserve-waits as_p2p 0 12 (from_secs 10) config listens manager refl

abbrev tracker : PeerTracker ℕ
tracker = record { rtts = (11, 80) ∷ (12, 30) ∷ []; failures = [] }

best_peer_cases_example :
    (NoneKnown tracker (11 ∷ 12 ∷ 13 ∷ []) × (best_peer tracker (11 ∷ 12 ∷ 13 ∷ []) ≡ none))
    ⊎ ((p : ℕ) × (rtt : ℕ) × (best_peer tracker (11 ∷ 12 ∷ 13 ∷ []) ≡ some p)
        × Finds tracker (11 ∷ 12 ∷ 13 ∷ []) p rtt)
best_peer_cases_example = best_peer_cases tracker (11 ∷ 12 ∷ 13 ∷ [])
