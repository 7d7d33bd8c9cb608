-- ===== src/Command/Service.antt =====
-- src/controller/command.rs: `request_service` and `send_request_resolved`, with the state of the world
-- passed on and what was done as a list of events. src/network/mod.rs: the texts of `NetworkError`.
use nexus_net.Base.{
  ℕ, zero, suc, ◌==◌, not, Bool, true, false, Option, none, some, List, [], ◌∷◌, ◌++◌, Name, bytes,
  Result, ok, err, if◌then◌else◌, select, Eq, nat_eq,
}
use nexus_net.Dispatcher.Types.{Response}
use nexus_net.Swarm.Types.{
  NetworkError, actor_gone, disabled, reloaded, build_failed, kad_failed, request_failed,
  transport_failed, Request,
}
use nexus_net.Tracker.{PeerTracker, best_peer}
use nexus_net.Command.Keys.{response_payload}

unfoldable pub to_string : NetworkError → Name
to_string actor_gone = bytes "network actor is gone"
to_string disabled = bytes "protocol disabled by config"
to_string (build_failed e) = bytes "swarm build failed: " ++ e
to_string (kad_failed e) = bytes "kademlia error: " ++ e
to_string (request_failed e) = bytes "request failed: " ++ e
to_string (transport_failed e) = bytes "transport error: " ++ e
to_string reloaded = bytes "cancelled by network reload"

-- The cache, the network and the tracker, as functions of the state of the world.
pub record Node (W PeerId Multiaddr : Type 0) : Type 0 where
  pub fetch_providers : W → Result Name (List PeerId) × W
  pub invalidate : W → W
  pub peers : W → PeerTracker PeerId
  pub send_request : PeerId → Request → W → Result NetworkError Response × W
  pub get_closest_peers : PeerId → W → Result NetworkError (List (PeerId × List Multiaddr)) × W
  pub send_request_with_addresses :
      PeerId → Request → List Multiaddr → W → Result NetworkError Response × W
  pub lossy : List ℕ → Name

pub data Event (PeerId : Type 0) : Type 0 where
  fetched : Result Name (List PeerId) → Event PeerId
  invalidated : Event PeerId
  sent : PeerId → Event PeerId

-- How an attempt ends.
pub data Verdict : Type 0 where
  done : Result Name (List ℕ) → Verdict
  again : Name → Verdict

abbrev pub Traced : Type 0 → Type 0 → Type 0 → Type 0
Traced W PeerId R = R × (List (Event PeerId) × W)

module _ {W PeerId Multiaddr : Type 0} ⦃eq : Eq PeerId⦄ (node : Node W PeerId Multiaddr)
    (my_peer_id : PeerId) where
  -- `provider_addresses`, of a lookup that may have failed.
  unfoldable pub provider_addresses : List (PeerId × List Multiaddr) → PeerId → List Multiaddr
  provider_addresses [] peer = []
  provider_addresses ((p, addrs) ∷ infos) peer =
      if eq.beq p peer then addrs else provider_addresses infos peer

  unfoldable pub resolved :
      Result NetworkError (List (PeerId × List Multiaddr)) → PeerId → List Multiaddr
  resolved (ok infos) peer = provider_addresses infos peer
  resolved (err e) peer = []

  abbrev pub worded : {A : Type 0} → Result NetworkError A → Result Name A
  worded (ok a) = ok a
  worded (err e) = err (to_string e)

  unfoldable pub send_to_addresses :
      PeerId → Request → NetworkError → List Multiaddr → W → Traced W PeerId (Result Name Response)
  send_to_addresses peer request first [] w = (err (to_string first), ([], w))
  send_to_addresses peer request first (a ∷ addrs) w =
      let answer = node.send_request_with_addresses peer request (a ∷ addrs) w in
      (worded answer.0, (sent peer ∷ [], answer.1))

  -- After the direct request.
  unfoldable pub on_first :
      PeerId → Request → Result NetworkError Response × W → Traced W PeerId (Result Name Response)
  on_first peer request (ok response, w) = (ok response, (sent peer ∷ [], w))
  on_first peer request (err first, w) =
      let found = node.get_closest_peers peer w in
      let (answer, (events, after)) =
        send_to_addresses peer request first (resolved found.0 peer) found.1 in
      (answer, (sent peer ∷ events, after))

  unfoldable pub send_request_resolved :
      PeerId → Request → W → Traced W PeerId (Result Name Response)
  send_request_resolved peer request w = on_first peer request (node.send_request peer request w)

  -- After the request; `first` is `attempt == 0`.
  unfoldable pub on_answer : Bool → Traced W PeerId (Result Name Response) → Traced W PeerId Verdict
  on_answer first (ok response, (events, w)) =
      (done (response_payload node.lossy response), (events, w))
  on_answer true (err error, (events, w)) =
      (again error, (events ++ (invalidated ∷ []), node.invalidate w))
  on_answer false (err error, (events, w)) = (again error, (events, w))

  unfoldable pub best_or_first : W → PeerId → List PeerId → PeerId
  best_or_first w c candidates = elim (best_peer (node.peers w) (c ∷ candidates)) [
    | some best ↦ best
    | none ↦ c
  ]

  unfoldable pub on_candidates : Bool → Request → List PeerId → W → Traced W PeerId Verdict
  on_candidates first request [] w = (done (err (bytes "No remote provider found")), ([], w))
  on_candidates first request (c ∷ candidates) w =
      on_answer first (send_request_resolved (best_or_first w c candidates) request w)

  unfoldable pub remote : List PeerId → List PeerId
  remote = select (λ p. not (eq.beq p my_peer_id))

  -- After the providers were fetched.
  unfoldable pub on_providers :
      Bool → Request → Result Name (List PeerId) × W → Traced W PeerId Verdict
  on_providers true request (err error, w) =
      (again error, (fetched (err error) ∷ invalidated ∷ [], node.invalidate w))
  on_providers false request (err error, w) =
      (done (err error), (fetched (err error) ∷ invalidated ∷ [], node.invalidate w))
  on_providers first request (ok providers, w) =
      let (verdict, (events, after)) = on_candidates first request (remote providers) w in
      (verdict, (fetched (ok providers) ∷ events, after))

  abbrev pub on_verdict :
      Traced W PeerId Verdict
      → (Name → W → Traced W PeerId (Result Name (List ℕ)))
      → Traced W PeerId (Result Name (List ℕ))
  on_verdict (done result, (events, w)) next = (result, (events, w))
  on_verdict (again error, (events, w)) next =
      let (result, (more, after)) = next error w in (result, (events ++ more, after))

  -- The attempts that are left, and the last error.
  unfoldable pub attempts :
      ℕ → ℕ → Option Name → Request → W → Traced W PeerId (Result Name (List ℕ))
  attempts zero attempt (some error) request w = (err error, ([], w))
  attempts zero attempt none request w = (err (bytes "service request failed"), ([], w))
  attempts (suc left) attempt last_error request w =
      on_verdict (on_providers (attempt == 0) request (node.fetch_providers w))
        (λ error after. attempts left (suc attempt) (some error) request after)

  unfoldable pub request_service : Request → W → Traced W PeerId (Result Name (List ℕ))
  request_service request w = attempts 2 0 none request w
