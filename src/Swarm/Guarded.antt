-- ===== src/Swarm/Guarded.antt =====
-- src/network/actor.rs: how a request to a peer is protected.
use nexus_net.Base.HashMap
use nexus_net.Base.{
  ℕ, ◌≡◌, ◌≤◌, ◌⊎◌, refl, Bool, true, false, some, List, ok, Eq, arith, Bool-cases, Option-cases,
  Result-cases, inl, inr, ltb,
}
use nexus_net.Swarm.Types.{NetworkError, Request}
use nexus_net.Swarm.Security.{SendSecurity, pq, plaintext, plaintext_iff}
use nexus_net.Swarm.Peers.{Peers, PeerMove, supports_pq, moves, start_peers}
use nexus_net.Swarm.Identities.{IsSound, moves-start_peers-IsSound}
use nexus_net.Swarm.Requests.{
  Sender, Envelope, Sending, refuses, sends_plain, sends_pq, send_sealed, send_pq, send_measured,
  send_secured, security_of, send_request,
}

module _ {PeerId Identity Sealed : Type 0} ⦃e : Eq PeerId⦄ (env : Envelope Identity Sealed)
    (s : Sender) (verify : PeerId → Identity → Bool) (peer : PeerId) where
  -- Why a request may go out as it does.
  pub data Allowed (p : Peers PeerId Identity) (request : Request)
      : Sending Identity Sealed → Type 0 where
    not_sent : (error : NetworkError) → Allowed p request (refuses error)
    -- PQ is not required, and off or not supported by the peer.
    in_plaintext :
        (n : ℕ)
        → s.required ≡ false
        → ((s.transport ≡ false) ⊎ (supports_pq p peer ≡ some false))
        → env.plain_len request ≡ ok n
        → n ≤ s.max_request_bytes
        → Allowed p request (sends_plain n)
    -- The request is sealed for an identity that was verified for the peer.
    sealed :
        (identity : Identity) (out : Sealed) (n : ℕ)
        → verify peer identity ≡ true
        → env.seal identity request ≡ ok out
        → env.sealed_len out ≡ ok n
        → n ≤ s.max_request_bytes
        → Allowed p request (sends_pq identity out n)

  module _ (p : Peers PeerId Identity) (request : Request) (sound : IsSound verify peer p) where
    send_sealed-Allowed :
        (identity : Identity) (out : Sealed)
        → verify peer identity ≡ true
        → env.seal identity request ≡ ok out
        → Allowed p request (send_sealed env s identity out)
    unfolding send_sealed
    send_sealed-Allowed identity out good made = elim (Result-cases (env.sealed_len out)) [
      | inr (bad, is_err) ↦ rw (is_err, send_sealed) (not_sent _)
      | inl (n, len) ↦ elim (Bool-cases (ltb s.max_request_bytes n)) [
        | inl large ↦ rw (len, large, send_sealed) (not_sent _)
        | inr fits ↦ elim (Bool-cases s.pq_behaviour) [
          | inl on ↦
              rw (len, fits, on, send_sealed) (sealed identity out n good made len (ground arith))
          | inr off ↦ rw (len, fits, off, send_sealed) (not_sent _)
        ]
      ]
    ]

    send_pq-Allowed : Allowed p request (send_pq env s (HashMap.get p.pq_identities peer) request)
    unfolding send_pq
    send_pq-Allowed = elim (Option-cases (HashMap.get p.pq_identities peer)) [
      | inl none' ↦ rw (none', send_pq) (not_sent _)
      | inr (identity, some') ↦ elim (Result-cases (env.seal identity request)) [
        | inr (bad, is_err) ↦ rw (some', is_err, send_pq) (not_sent _)
        | inl (out, made) ↦
            rw (some', made, send_pq)
              (send_sealed-Allowed identity out (ground (arith, sound.verified, some')) made)
      ]
    ]

    send_measured-Allowed :
        (use_pq : Bool)
        → (use_pq ≡ false
            → (s.required ≡ false) × ((s.transport ≡ false) ⊎ (supports_pq p peer ≡ some false)))
        → Allowed p request (send_measured env s use_pq (HashMap.get p.pq_identities peer) request)
    unfolding send_measured
    send_measured-Allowed use_pq why = elim (Result-cases (env.plain_len request)) [
      | inr (bad, is_err) ↦ rw (is_err, send_measured) (not_sent _)
      | inl (n, len) ↦ elim (Bool-cases (ltb s.max_request_bytes n)) [
        | inl large ↦ rw (len, large, send_measured) (not_sent _)
        | inr fits ↦ elim (Bool-cases use_pq) [
          | inl on ↦ rw (len, fits, on, send_measured) send_pq-Allowed
          | inr off ↦
              rw (len, fits, off, send_measured)
                (in_plaintext n (why off).0 (why off).1 len (ground arith))
        ]
      ]
    ]

    send_secured-Allowed :
        (x : SendSecurity)
        → security_of env s p peer ≡ x
        → Allowed p request (send_secured env s x (HashMap.get p.pq_identities peer) request)
    unfolding send_secured security_of
    send_secured-Allowed pq here = send_measured-Allowed true λ no. absurd (ground arith)
    send_secured-Allowed plaintext here = send_measured-Allowed false λ off. ground (
      arith,
      here,
      plaintext_iff s.transport s.required s.setup.has_keys
          (HashMap.contains_key p.pq_identities peer) (supports_pq p peer),
    )
    send_secured-Allowed _ here = not_sent _

  -- Whatever the actor has heard of its peers: a request goes out in plaintext only if PQ is not
  -- required, and is off or not supported by the peer; sealed, only for an identity that was verified
  -- for the peer; and never with more bytes than the limit.
  pub send_request-Allowed :
      (ms : List (PeerMove PeerId Identity)) (bootstrap : List PeerId) (request : Request)
      → Allowed
          (moves verify ms (start_peers bootstrap))
          request
          (send_request env s (moves verify ms (start_peers bootstrap)) peer request)
  unfolding send_request
  send_request-Allowed ms bootstrap request =
      let p = moves verify ms (start_peers bootstrap) in
      send_secured-Allowed p request (moves-start_peers-IsSound verify peer ms bootstrap)
        (security_of env s p peer) refl
