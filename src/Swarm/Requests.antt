-- ===== src/Swarm/Requests.antt =====
-- src/network/actor.rs: `ServiceSendRequest`, and the waiters of outbound requests. Sealing, and the
-- sizes of encodings, are parameters.
use nexus_net.Base.HashMap
use nexus_net.Base.{
  ℕ, zero, suc, ◌+◌, ◌/◌, ◌%◌, Bool, true, false, Option, none, some, [], ◌∷◌, ◌++◌, Name, bytes,
  Result, ok, err, Eq, nat_eq, if◌then◌else◌, ltb,
}
use nexus_net.Swarm.Types.{NetworkError, Request, request_failed}
use nexus_net.Swarm.Security.{
  SendSecurity, pq, plaintext, wait_identity, missing_keys, missing_transport, unsupported,
  send_security,
}
use nexus_net.Swarm.Peers.{Peers, PqSetup, supports_pq, maybe_fetch_pq_identity}

-- The decimal digits of a `u64`; it has at most 20.
abbrev pub digits : ℕ → ℕ → Name
digits zero n = []
digits (suc fuel) n = if ltb n 10 then (48 + n) ∷ [] else digits fuel (n / 10) ++ (48 + n % 10) ∷ []

abbrev pub pq_suffix : Bool → Name
pq_suffix true = bytes "; PQ encrypted envelope overhead is included"
pq_suffix false = []

unfoldable pub request_too_large_error : ℕ → ℕ → Bool → NetworkError
request_too_large_error wire_len limit is_pq = request_failed (
    bytes "request too large: "
    ++ digits 20 wire_len
    ++ bytes " bytes > services.dispatcher.max_request_bytes ("
    ++ digits 20 limit
    ++ bytes " bytes)"
    ++ pq_suffix is_pq)

-- The configuration and the keys, as far as a request depends on them.
pub record Sender : Type 0 where
  pub transport : Bool
  pub required : Bool
  pub max_request_bytes : ℕ
  pub setup : PqSetup
  pub pq_behaviour : Bool

-- `encoded_len` of a plain and of a sealed request, and `seal_request` for an identity.
pub record Envelope (Identity Sealed : Type 0) : Type 0 where
  pub plain_len : Request → Result NetworkError ℕ
  pub seal : Identity → Request → Result Name Sealed
  pub sealed_len : Sealed → Result NetworkError ℕ

-- What becomes of a request.
pub data Sending (Identity Sealed : Type 0) : Type 0 where
  refuses : NetworkError → Sending Identity Sealed
  sends_plain : ℕ → Sending Identity Sealed
  sends_pq : Identity → Sealed → ℕ → Sending Identity Sealed

module _ {Identity Sealed : Type 0} (env : Envelope Identity Sealed) (s : Sender) where
  unfoldable pub send_sealed : Identity → Sealed → Sending Identity Sealed
  send_sealed recipient out = elim (env.sealed_len out) [
    | err e ↦ refuses e
    | ok wire_len ↦
        if ltb s.max_request_bytes wire_len
        then refuses (request_too_large_error wire_len s.max_request_bytes true)
        else if s.pq_behaviour
        then sends_pq recipient out wire_len
        else refuses (request_failed (bytes "pq behaviour disabled"))
  ]

  -- `self.pq_identities.get(&peer)` is there whenever the branch is taken.
  unfoldable pub send_pq : Option Identity → Request → Sending Identity Sealed
  send_pq none request = refuses (request_failed [])
  send_pq (some recipient) request = elim (env.seal recipient request) [
    | err e ↦ refuses (request_failed e)
    | ok out ↦ send_sealed recipient out
  ]

  -- After the size of the plain request is known.
  unfoldable pub send_measured : Bool → Option Identity → Request → Sending Identity Sealed
  send_measured use_pq identity request = elim (env.plain_len request) [
    | err e ↦ refuses e
    | ok n ↦
        if ltb s.max_request_bytes n
        then refuses (request_too_large_error n s.max_request_bytes false)
        else if use_pq
        then send_pq identity request
        else sends_plain n
  ]

  unfoldable pub send_secured : SendSecurity → Option Identity → Request → Sending Identity Sealed
  send_secured pq identity request = send_measured true identity request
  send_secured plaintext identity request = send_measured false identity request
  send_secured wait_identity identity request =
      refuses (request_failed (bytes "PQ identity not ready; retry after Identify"))
  send_secured missing_keys identity request =
      refuses (request_failed (bytes "PQ transport enabled but local PQ keys are unavailable"))
  send_secured missing_transport identity request =
      refuses (request_failed (bytes "PQ required but transport is disabled"))
  send_secured unsupported identity request =
      refuses (request_failed (bytes "PQ required but peer is not PQ-capable"))

  module _ {PeerId : Type 0} ⦃e : Eq PeerId⦄ where
    unfoldable pub security_of : Peers PeerId Identity → PeerId → SendSecurity
    security_of p peer =
        send_security s.transport s.required s.setup.has_keys
          (HashMap.contains_key p.pq_identities peer) (supports_pq p peer)

    unfoldable pub send_request : Peers PeerId Identity → PeerId → Request → Sending Identity Sealed
    send_request p peer request =
        send_secured (security_of p peer) (HashMap.get p.pq_identities peer) request

    -- A request that waits for an identity asks for it.
    unfoldable pub peers_after : ℕ → PeerId → Peers PeerId Identity → Peers PeerId Identity
    peers_after id peer p = elim (security_of p peer) [
      | wait_identity ↦ maybe_fetch_pq_identity s.setup id peer p
      | _ ↦ p
    ]

-- `PendingOutbound`, and what `PqOutboundPending` has in common with it.
pub record PendingOutbound : Type 0 where
  pub resp : ℕ
  pub wire_len : ℕ
