-- ===== src/Swarm/Identities.antt =====
-- src/network/actor.rs: the post-quantum identities that the actor holds.
use nexus_net.Base.HashMap
use nexus_net.Base.HashSet
use nexus_net.Base.{
  ℕ, ◌≡◌, refl, Bool, true, false, not, ◌&&◌, ◌||◌, Option, none, some, List, [], ◌∷◌, Eq, nat_eq,
  arith, select, Option-cases, Bool-cases, inl, inr, name_eq,
}
use nexus_net.Swarm.Peers.{
  Peers, PqSetup, Info, PeerMove, identifies, wants_identity, shows_identity, identity_fails,
  closes, restarts, maybe_fetch_pq_identity, on_identify_peer, on_identity, on_identity_failed,
  on_connection_closed, start_peers, move, moves, supports_pq, starts_with, agent_name,
}

module _ {PeerId : Type 0} ⦃e : Eq PeerId⦄ (q : PeerId) where
  -- Whether an identity of the peer is asked for.
  abbrev pub waits : List (ℕ × PeerId) → Bool
  waits [] = false
  waits ((id, peer) ∷ rest) = e.beq peer q || waits rest

  waits-remove :
      (id : ℕ) (m : List (ℕ × PeerId)) → waits (HashMap.remove id m) ≡ true → waits m ≡ true
  unfolding HashMap.remove
  waits-remove id [] h = h
  waits-remove id ((j, peer) ∷ m) h = ground (arith, waits-remove id m)

  waits-get :
      (id : ℕ) (peer : PeerId) (m : List (ℕ × PeerId))
      → HashMap.get m id ≡ some peer
      → e.beq peer q ≡ true
      → waits m ≡ true
  unfolding HashMap.get
  waits-get id peer [] h same = absurd (ground arith)
  waits-get id peer ((j, other) ∷ m) h same = ground (arith, waits-get id peer m)

  waits-select :
      (peer : PeerId) (m : List (ℕ × PeerId))
      → waits (select (λ (x : ℕ × PeerId). not (e.beq x.1 peer)) m)
        ≡ (not (e.beq peer q) && waits m)
  waits-select peer [] = ground arith
  waits-select peer ((j, other) ∷ m) =
      ground (arith, waits-select peer m, e.beq_iff other peer, e.beq_iff other q, e.beq_iff peer q)

module _ {PeerId Identity : Type 0} ⦃e : Eq PeerId⦄ (verify : PeerId → Identity → Bool)
    (q : PeerId) where
  abbrev pub passes : Option Identity → Bool
  passes none = true
  passes (some identity) = verify q identity

  -- The identity that is held of the peer was verified for it; and it is held, or asked for, only
  -- while the protocols of the peer are known.
  pub record IsSound (p : Peers PeerId Identity) : Type 0 where
    pub verified : passes (HashMap.get p.pq_identities q) ≡ true
    pub known :
        (not (HashMap.contains_key p.pq_identities q) || HashMap.contains_key p.peer_protocols q)
        ≡ true
    pub asked :
        (not (waits q p.pending_pq_identity) || HashMap.contains_key p.peer_protocols q) ≡ true

  maybe_fetch_pq_identity-IsSound :
      (setup : PqSetup) (id : ℕ) (peer : PeerId) (p : Peers PeerId Identity)
      → IsSound p
      → IsSound (maybe_fetch_pq_identity setup id peer p)
  unfolding maybe_fetch_pq_identity supports_pq HashMap.insert
  maybe_fetch_pq_identity-IsSound setup id peer p h = ground (
    arith,
    h.verified,
    h.known,
    h.asked,
    waits-remove q id p.pending_pq_identity,
    e.beq_iff peer q,
  )

  on_identify_peer-IsSound :
      (setup : PqSetup) (id : ℕ) (peer : PeerId) (info : Info) (p : Peers PeerId Identity)
      → IsSound p
      → IsSound (on_identify_peer setup id peer info p)
  unfolding on_identify_peer
  on_identify_peer-IsSound setup id peer info p h =
      let protocols = HashSet.extend [] info.protocols in
      let heard = record p { peer_protocols = HashMap.insert peer protocols p.peer_protocols } in
      let named = record heard { identified_peers = HashSet.insert peer p.identified_peers } in
      let k : IsSound named = record {
        verified = h.verified;
        known = ground (arith, h.known, HashMap.get-insert peer q protocols p.peer_protocols);
        asked = ground (arith, h.asked, HashMap.get-insert peer q protocols p.peer_protocols);
      } in
      elim (Bool-cases (starts_with info.agent_version agent_name)) [
        | inl ours ↦
            rw (ours, on_identify_peer) (maybe_fetch_pq_identity-IsSound setup id peer named k)
        | inr other ↦
            rw (other, on_identify_peer)
              (record { verified = k.verified; known = k.known; asked = k.asked })
      ]

  on_identity-IsSound :
      (id : ℕ) (response : Identity) (p : Peers PeerId Identity)
      → IsSound p
      → IsSound (on_identity verify id response p)
  unfolding on_identity
  on_identity-IsSound id response p h = elim (Option-cases (HashMap.get p.pending_pq_identity id)) [
    | inl none' ↦ rw (none', on_identity) h
    | inr (peer, some') ↦ elim (Bool-cases (verify peer response)) [
      | inr bad ↦
          rw (some', bad, on_identity)
            (record {
              verified = h.verified;
              known = h.known;
              asked = ground (arith, h.asked, waits-remove q id p.pending_pq_identity);
            })
      | inl good ↦
          rw (some', good, on_identity)
            (record {
              verified = ground (
                arith,
                h.verified,
                HashMap.get-insert peer q response p.pq_identities,
                e.beq_iff peer q,
                good,
              );
              known = ground (
                arith,
                h.known,
                h.asked,
                HashMap.get-insert peer q response p.pq_identities,
                waits-get q id peer p.pending_pq_identity,
                some',
              );
              asked = ground (arith, h.asked, waits-remove q id p.pending_pq_identity);
            })
    ]
  ]

  on_connection_closed-IsSound :
      (peer : PeerId) (left : ℕ) (p : Peers PeerId Identity)
      → IsSound p
      → IsSound (on_connection_closed peer left p)
  unfolding on_connection_closed
  on_connection_closed-IsSound peer left p h = ground (
    arith,
    h.verified,
    h.known,
    h.asked,
    HashMap.get-remove peer q p.pq_identities,
    HashMap.get-remove peer q p.peer_protocols,
    waits-select q peer p.pending_pq_identity,
  )

  move-IsSound :
      (m : PeerMove PeerId Identity) (p : Peers PeerId Identity)
      → IsSound p
      → IsSound (move verify m p)
  unfolding move on_identity_failed start_peers HashMap.get
  move-IsSound (identifies setup id peer info) p h = on_identify_peer-IsSound setup id peer info p h
  move-IsSound (wants_identity setup id peer) p h =
      maybe_fetch_pq_identity-IsSound setup id peer p h
  move-IsSound (shows_identity id response) p h = on_identity-IsSound id response p h
  move-IsSound (identity_fails id) p h = record {
    verified = h.verified;
    known = h.known;
    asked = ground (arith, h.asked, waits-remove q id p.pending_pq_identity);
  }
  move-IsSound (closes peer left) p h = on_connection_closed-IsSound peer left p h
  move-IsSound (restarts bootstrap) p h = record { verified = refl; known = refl; asked = refl }

  moves-IsSound :
      (ms : List (PeerMove PeerId Identity)) (p : Peers PeerId Identity)
      → IsSound p
      → IsSound (moves verify ms p)
  unfolding moves
  moves-IsSound [] p h = h
  moves-IsSound (m ∷ ms) p h = moves-IsSound ms (move verify m p) (move-IsSound m p h)

  -- Whatever the actor hears of its peers, in whatever order: the post-quantum identity that it holds
  -- of a peer was verified for that peer, and it holds one, or asks for one, only while it knows the
  -- protocols of the peer, so not after the last connection to the peer was closed.
  pub moves-start_peers-IsSound :
      (ms : List (PeerMove PeerId Identity)) (bootstrap : List PeerId)
      → IsSound (moves verify ms (start_peers bootstrap))
  unfolding start_peers HashMap.get
  moves-start_peers-IsSound ms bootstrap =
      moves-IsSound ms (start_peers bootstrap)
        (record { verified = refl; known = refl; asked = refl })
