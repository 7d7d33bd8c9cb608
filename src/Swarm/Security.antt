-- ===== src/Swarm/Security.antt =====
-- src/network/actor.rs: `send_security`.
use nexus_net.Base.{
  Bool, true, false, not, ◌&&◌, Option, none, some, if◌then◌else◌, ◌≡◌, ◌↔◌, ◌⊎◌, arith,
}

pub data SendSecurity : Type 0 where
  pq plaintext wait_identity missing_keys missing_transport unsupported : SendSecurity

unfoldable pub send_security : Bool → Bool → Bool → Bool → Option Bool → SendSecurity
send_security transport required keys_available identity_available supports_pq =
    if required && not transport
    then missing_transport
    else if required && not identity_available
    then elim supports_pq [
      | none ↦ wait_identity
      | some able ↦ if able then wait_identity else unsupported
    ]
    else if not transport
    then plaintext
    else if not keys_available
    then missing_keys
    else if identity_available
    then pq
    else elim supports_pq [
      | none ↦ wait_identity
      | some able ↦ if able then wait_identity else plaintext
    ]

-- A request goes out in plaintext exactly if PQ is not required, and PQ transport is off, or its keys
-- are there but the peer is known not to support it and has no identity.
pub plaintext_iff :
    (transport required keys identity : Bool) (supports : Option Bool)
    → (send_security transport required keys identity supports ≡ plaintext) ↔ (
        (required ≡ false)
        × ((transport ≡ false) ⊎ ((keys ≡ true) × (identity ≡ false) × (supports ≡ some false))))
unfolding send_security
plaintext_iff transport required keys identity none = ground arith
plaintext_iff transport required keys identity (some able) = ground arith
