-- ===== src/Auth/Trust.antt =====
-- src/auth.rs: what `verify_index` and `verify_whitelist` accept.
use nexus_net.Base.{
  ℕ, ◌≤◌, ◌≡◌, ◌↔◌, refl, true, some, List, [], ◌∷◌, Name, ok, length, arith, All, name_beq_iff,
  Option-cases, Result-cases, inl, inr,
}
use nexus_net.Auth.Naming.{is_valid_service_name, key_path}
use nexus_net.Auth.Cose.{verify_ed25519}
use nexus_net.Auth.Documents.{
  AuthNetwork, AuthLib, ServiceEntry, IndexDoc, WhitelistDoc, max_doc_bytes, max_services,
  max_members, check_entries, index_key, service_key, verify_payload, verify_index,
  verify_whitelist,
}

module _ {PublicKey Keypair Sign1 : Type 0} (lib : AuthLib PublicKey Keypair Sign1) where
  -- The bytes are a COSE envelope of at most 1 MiB with an EdDSA signature of the authority, bound to
  -- `aad`, over the payload.
  pub record IsSigned (authority : PublicKey) (aad value payload : List ℕ) : Type 0 where
    pub small : length value ≤ max_doc_bytes
    pub envelope : Sign1
    pub parsed : lib.cose_lib.from_slice value ≡ some envelope
    pub eddsa : lib.cose_lib.is_eddsa envelope ≡ true
    pub signed : lib.cose_lib.verifies authority aad envelope ≡ true
    pub content : lib.cose_lib.payload envelope ≡ some payload

  verify_payload_sound :
      (authority : PublicKey) (aad value payload : List ℕ)
      → verify_payload lib authority aad value ≡ ok payload
      → IsSigned authority aad value payload
  unfolding verify_payload verify_ed25519
  verify_payload_sound authority aad value payload h =
      elim (Option-cases (lib.cose_lib.from_slice value)) [
        | inl none' ↦ absurd (ground arith)
        | inr (envelope, parsed) ↦ record {
          small = ground arith;
          envelope = envelope;
          parsed = parsed;
          eddsa = ground arith;
          signed = ground arith;
          content = ground arith;
        }
      ]

  verify_payload_complete :
      (authority : PublicKey) (aad value payload : List ℕ)
      → IsSigned authority aad value payload
      → verify_payload lib authority aad value ≡ ok payload
  unfolding verify_payload verify_ed25519
  verify_payload_complete authority aad value payload h = ground arith

  verify_payload_iff :
      (authority : PublicKey) (aad value payload : List ℕ)
      → (verify_payload lib authority aad value ≡ ok payload) ↔ IsSigned authority aad value payload
  verify_payload_iff authority aad value payload = (
    verify_payload_sound authority aad value payload,
    verify_payload_complete authority aad value payload,
  )

  -- The entries of an index: valid service names with 32-byte digests.
  abbrev pub IsEntry : ServiceEntry → Type 0
  IsEntry entry = (is_valid_service_name entry.name ≡ true) × (length entry.hash ≡ 32)

  check_entries_sound : (l : List ServiceEntry) → check_entries l ≡ ok tt → All IsEntry l
  unfolding check_entries
  check_entries_sound [] h = tt
  check_entries_sound (x ∷ xs) h = ground (arith, check_entries_sound xs)

  check_entries_complete : (l : List ServiceEntry) → All IsEntry l → check_entries l ≡ ok tt
  unfolding check_entries
  check_entries_complete [] h = refl
  check_entries_complete (x ∷ xs) h = ground (arith, check_entries_complete xs h.1)

  -- A trusted index: signed for the index key of the network, in bounds and not expired.
  pub record IsTrustedIndex (net : AuthNetwork PublicKey) (value : List ℕ) (now : ℕ)
      (doc : IndexDoc) : Type 0 where
    pub payload : List ℕ
    pub signed : IsSigned net.authority (index_key lib net) value payload
    pub decoded : lib.decode_index payload ≡ some doc
    pub count : length doc.services ≤ max_services
    pub entries : All IsEntry doc.services
    pub unexpired : now ≤ doc.expires_at

  verify_index_sound :
      (net : AuthNetwork PublicKey) (value : List ℕ) (now : ℕ) (doc : IndexDoc)
      → verify_index lib net value now ≡ ok doc
      → IsTrustedIndex net value now doc
  unfolding verify_index
  verify_index_sound net value now doc h =
      elim (Result-cases (verify_payload lib net.authority (index_key lib net) value)) [
        | inr (e, bad) ↦ absurd (ground arith)
        | inl (payload, good) ↦ elim (Option-cases (lib.decode_index payload)) [
          | inl none' ↦ absurd (ground arith)
          | inr (d, decoded) ↦ record {
            payload = payload;
            signed = verify_payload_sound net.authority (index_key lib net) value payload good;
            decoded = ground arith;
            count = ground arith;
            entries = check_entries_sound doc.services (ground arith);
            unexpired = ground arith;
          }
        ]
      ]

  verify_index_complete :
      (net : AuthNetwork PublicKey) (value : List ℕ) (now : ℕ) (doc : IndexDoc)
      → IsTrustedIndex net value now doc
      → verify_index lib net value now ≡ ok doc
  unfolding verify_index
  verify_index_complete net value now doc h = ground (
    arith,
    verify_payload_complete net.authority (index_key lib net) value h.payload h.signed,
    check_entries_complete doc.services h.entries,
  )

  -- verify_index accepts exactly the trusted indexes: signed by the authority for the index key,
  -- at most 10000 services, each with a valid name and a 32-byte digest, and not expired.
  pub verify_index_iff :
      (net : AuthNetwork PublicKey) (value : List ℕ) (now : ℕ) (doc : IndexDoc)
      → (verify_index lib net value now ≡ ok doc) ↔ IsTrustedIndex net value now doc
  verify_index_iff net value now doc =
      (verify_index_sound net value now doc, verify_index_complete net value now doc)

  -- A trusted whitelist: the very bytes that the index names, signed for the key of the service.
  pub record IsTrustedWhitelist (net : AuthNetwork PublicKey) (service : Name) (value : List ℕ)
      (entry : ServiceEntry) (doc : WhitelistDoc) : Type 0 where
    pub same_length : length value ≡ entry.length_of
    pub same_hash : lib.sha256 value ≡ entry.hash
    pub valid : is_valid_service_name service ≡ true
    pub payload : List ℕ
    pub signed : IsSigned net.authority (key_path net.net_hash service) value payload
    pub decoded : lib.decode_whitelist payload ≡ some doc
    pub count : length doc.members ≤ max_members

  verify_whitelist_sound :
      (net : AuthNetwork PublicKey) (service : Name) (value : List ℕ) (entry : ServiceEntry)
      (doc : WhitelistDoc)
      → verify_whitelist lib net service value entry ≡ ok doc
      → IsTrustedWhitelist net service value entry doc
  unfolding verify_whitelist service_key
  verify_whitelist_sound net service value entry doc h =
      elim (Result-cases (verify_payload lib net.authority (key_path net.net_hash service) value)) [
        | inr (e, bad) ↦ absurd (ground arith)
        | inl (payload, good) ↦ elim (Option-cases (lib.decode_whitelist payload)) [
          | inl none' ↦ absurd (ground arith)
          | inr (d, decoded) ↦ record {
            same_length = ground arith;
            same_hash = (name_beq_iff (lib.sha256 value) entry.hash).0 (ground arith);
            valid = ground arith;
            payload = payload;
            signed =
                verify_payload_sound net.authority (key_path net.net_hash service) value payload
                  good;
            decoded = ground arith;
            count = ground arith;
          }
        ]
      ]

  verify_whitelist_complete :
      (net : AuthNetwork PublicKey) (service : Name) (value : List ℕ) (entry : ServiceEntry)
      (doc : WhitelistDoc)
      → IsTrustedWhitelist net service value entry doc
      → verify_whitelist lib net service value entry ≡ ok doc
  unfolding verify_whitelist service_key
  verify_whitelist_complete net service value entry doc h = ground (
    arith,
    name_beq_iff (lib.sha256 value) entry.hash,
    verify_payload_complete net.authority (key_path net.net_hash service) value h.payload h.signed,
  )

  -- verify_whitelist accepts exactly the trusted whitelists: the very bytes that the index names,
  -- in a COSE envelope signed by the authority for the key of the service, with at most 100000
  -- members.
  pub verify_whitelist_iff :
      (net : AuthNetwork PublicKey) (service : Name) (value : List ℕ) (entry : ServiceEntry)
      (doc : WhitelistDoc)
      → (verify_whitelist lib net service value entry ≡ ok doc)
        ↔ IsTrustedWhitelist net service value entry doc
  verify_whitelist_iff net service value entry doc = (
    verify_whitelist_sound net service value entry doc,
    verify_whitelist_complete net service value entry doc,
  )
