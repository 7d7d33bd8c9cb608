-- ===== src/Swarm/Peers.antt =====
-- src/network/actor.rs: what the actor knows of its peers: `on_identify_peer`,
-- `maybe_fetch_pq_identity`, `is_allowed_peer` and `handle_pq_identity`. The swarm's `send_request` is
-- the number that it returns; `verify` is `PqIdentity::verify`.
use nexus_net.Base.HashMap
use nexus_net.Base.HashSet
use nexus_net.Base.{
  ℕ, Bool, true, false, not, ◌||◌, ◌&&◌, Option, none, some, List, [], ◌∷◌, Name, name_eq, Eq,
  nat_eq, if◌then◌else◌, bytes, ◌==◌, select,
}

abbrev pub agent_name : Name
agent_name = bytes "/nexusnet"

abbrev pub service_req_pq_protocol : Name
service_req_pq_protocol = bytes "/oahd/service_req/2.0.0"

unfoldable pub starts_with : Name → Name → Bool
starts_with text [] = true
starts_with [] (x ∷ prefix) = false
starts_with (y ∷ text) (x ∷ prefix) = nat_eq.beq y x && starts_with text prefix

pub record Peers (PeerId Identity : Type 0) : Type 0 where
  pub identified_peers : List PeerId
  pub peer_protocols : List (PeerId × List Name)
  pub pq_identities : List (PeerId × Identity)
  pub pending_pq_identity : List (ℕ × PeerId)

-- What decides whether an identity is fetched: the keys, the configuration, and the behaviour.
pub record PqSetup : Type 0 where
  pub has_keys : Bool
  pub enabled : Bool
  pub has_behaviour : Bool

-- `identify::Info`, as far as it is read.
pub record Info : Type 0 where
  pub agent_version : Name
  pub protocols : List Name

abbrev pub is_true : Option Bool → Bool
is_true none = false
is_true (some b) = b

module _ {PeerId Identity : Type 0} ⦃e : Eq PeerId⦄ where
  -- `supports_pq` of a request: none for a peer that was not identified.
  unfoldable pub supports_pq : Peers PeerId Identity → PeerId → Option Bool
  supports_pq p peer = elim (HashMap.get p.peer_protocols peer) [
    | none ↦ none
    | some protocols ↦ some (HashSet.contains protocols service_req_pq_protocol)
  ]

  -- `id` is the number of the request that it may send.
  unfoldable pub maybe_fetch_pq_identity :
      PqSetup → ℕ → PeerId → Peers PeerId Identity → Peers PeerId Identity
  maybe_fetch_pq_identity setup id peer p =
      if not setup.has_keys || not setup.enabled
      then p
      else if HashMap.contains_key p.pq_identities peer
      then p
      else if not (is_true (supports_pq p peer))
      then p
      else if setup.has_behaviour
      then record p { pending_pq_identity = HashMap.insert id peer p.pending_pq_identity }
      else p

  -- The addresses go to the Kademlia behaviour.
  unfoldable pub on_identify_peer :
      PqSetup → ℕ → PeerId → Info → Peers PeerId Identity → Peers PeerId Identity
  on_identify_peer setup id peer info p =
      let heard = record p {
        peer_protocols = HashMap.insert peer (HashSet.extend [] info.protocols) p.peer_protocols;
      } in
      if not (starts_with info.agent_version agent_name)
      then heard
      else maybe_fetch_pq_identity setup id peer
          (record heard { identified_peers = HashSet.insert peer p.identified_peers })

  unfoldable pub is_allowed_peer : PeerId → Peers PeerId Identity → PeerId → Bool
  is_allowed_peer me p peer = e.beq peer me || HashSet.contains p.identified_peers peer

  -- `handle_pq_identity` for a response.
  unfoldable pub on_identity :
      (PeerId → Identity → Bool) → ℕ → Identity → Peers PeerId Identity → Peers PeerId Identity
  on_identity verify id response p = elim (HashMap.get p.pending_pq_identity id) [
    | none ↦ p
    | some expected ↦
        let rest = record p { pending_pq_identity = HashMap.remove id p.pending_pq_identity } in
        if verify expected response
        then record rest { pq_identities = HashMap.insert expected response p.pq_identities }
        else rest
  ]

  -- `handle_pq_identity` for a failure.
  unfoldable pub on_identity_failed : ℕ → Peers PeerId Identity → Peers PeerId Identity
  on_identity_failed id p = record p {
    pending_pq_identity = HashMap.remove id p.pending_pq_identity;
  }

  -- `ConnectionClosed`, given how many connections to the peer are left.
  unfoldable pub on_connection_closed : PeerId → ℕ → Peers PeerId Identity → Peers PeerId Identity
  on_connection_closed peer left p =
      if left == 0
      then record p {
        peer_protocols = HashMap.remove peer p.peer_protocols;
        pq_identities = HashMap.remove peer p.pq_identities;
        pending_pq_identity =
            select (λ (x : ℕ × PeerId). not (e.beq x.1 peer)) p.pending_pq_identity;
      }
      else p

  -- The part of `reload` about peers, and the start of the actor: `bootstrap` are the ids in the
  -- addresses of the bootstrap nodes.
  unfoldable pub start_peers : List PeerId → Peers PeerId Identity
  start_peers bootstrap = record {
    identified_peers = HashSet.extend [] bootstrap;
    peer_protocols = [];
    pq_identities = [];
    pending_pq_identity = [];
  }

-- What tells the actor of its peers.
pub data PeerMove (PeerId Identity : Type 0) : Type 0 where
  identifies : PqSetup → ℕ → PeerId → Info → PeerMove PeerId Identity
  wants_identity : PqSetup → ℕ → PeerId → PeerMove PeerId Identity
  shows_identity : ℕ → Identity → PeerMove PeerId Identity
  identity_fails : ℕ → PeerMove PeerId Identity
  closes : PeerId → ℕ → PeerMove PeerId Identity
  restarts : List PeerId → PeerMove PeerId Identity

module _ {PeerId Identity : Type 0} ⦃e : Eq PeerId⦄ (verify : PeerId → Identity → Bool) where
  unfoldable pub move : PeerMove PeerId Identity → Peers PeerId Identity → Peers PeerId Identity
  move (identifies setup id peer info) p = on_identify_peer setup id peer info p
  move (wants_identity setup id peer) p = maybe_fetch_pq_identity setup id peer p
  move (shows_identity id response) p = on_identity verify id response p
  move (identity_fails id) p = on_identity_failed id p
  move (closes peer left) p = on_connection_closed peer left p
  move (restarts bootstrap) p = start_peers bootstrap

  unfoldable pub moves :
      List (PeerMove PeerId Identity) → Peers PeerId Identity → Peers PeerId Identity
  moves [] p = p
  moves (m ∷ ms) p = moves ms (move m p)
