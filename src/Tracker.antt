-- ===== src/Tracker.antt =====
-- src/controller/peer_tracker.rs: round-trip times and consecutive ping failures. A `PeerId` is a
-- type with an equality; a `Duration` is a number of nanoseconds. The counter is a `u32`.
pub mod Best
pub mod Failures
use nexus_net.Base.HashMap
use nexus_net.Base.{
  ℕ, ◌+◌, ◌%◌, ◌^◌, ◌==◌, leb, ltb, Option, none, some, List, [], ◌∷◌, Eq, if◌then◌else◌,
}

pub record PeerTracker (PeerId : Type 0) : Type 0 where
  pub rtts : List (PeerId × ℕ)
  pub failures : List (PeerId × ℕ)

-- `ping::Event`: a round-trip time or a failure.
pub data PingEvent (PeerId : Type 0) : Type 0 where
  pong : PeerId → ℕ → PingEvent PeerId
  failed : PeerId → PingEvent PeerId

module _ {PeerId : Type 0} ⦃e : Eq PeerId⦄ where
  unfoldable pub new : PeerId → PeerTracker PeerId
  new my_peer_id = record { rtts = HashMap.insert my_peer_id 0 []; failures = [] }

  -- The counter after one more failure: `entry(peer).or_insert(0)`, `*count += 1`.
  unfoldable pub count_failure : PeerTracker PeerId → PeerId → ℕ
  count_failure t peer = elim (HashMap.get t.failures peer) [
    | none ↦ 1
    | some count ↦ (count + 1) % 2 ^ 32
  ]

  unfoldable pub on_failure : PeerId → ℕ → PeerTracker PeerId → PeerTracker PeerId × Option PeerId
  on_failure peer max_failures t =
      let u = record t { rtts = HashMap.remove peer t.rtts } in
      let count = count_failure t peer in
      if max_failures == 0
      then (u, none)
      else if leb max_failures count
      then (record u { failures = HashMap.remove peer u.failures }, some peer)
      else (record u { failures = HashMap.insert peer count u.failures }, none)

  unfoldable pub on_ping :
      PingEvent PeerId → ℕ → PeerTracker PeerId → PeerTracker PeerId × Option PeerId
  on_ping (pong peer rtt) max_failures t = (
    record t { rtts = HashMap.insert peer rtt t.rtts; failures = HashMap.remove peer t.failures },
    none,
  )
  on_ping (failed peer) max_failures t = on_failure peer max_failures t

  -- One step of `min_by_key` on the round-trip times; of equal ones the first stays.
  unfoldable pub better : Option (PeerId × ℕ) → PeerId → Option ℕ → Option (PeerId × ℕ)
  better best p none = best
  better none p (some rtt) = some (p, rtt)
  better (some (q, least)) p (some rtt) = if ltb rtt least then some (p, rtt) else some (q, least)

  -- `filter_map(..).min_by_key(..)`; `best` is the best so far.
  unfoldable pub min_by_rtt :
      PeerTracker PeerId → Option (PeerId × ℕ) → List PeerId → Option (PeerId × ℕ)
  unfolding better
  min_by_rtt t best [] = best
  min_by_rtt t best (p ∷ rest) = min_by_rtt t (better best p (HashMap.get t.rtts p)) rest

  unfoldable pub best_peer : PeerTracker PeerId → List PeerId → Option PeerId
  best_peer t providers = elim (min_by_rtt t none providers) [
    | none ↦ none
    | some (p, rtt) ↦ some p
  ]
