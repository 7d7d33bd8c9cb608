-- ===== src/Auth/Roundtrip.antt =====
-- src/auth.rs: `sign_index` with `verify_index`, and `sign_whitelist` with `verify_whitelist`.
use nexus_net.Base.{
  ℕ, ◌≤◌, ◌≡◌, true, some, List, Name, ok, length, arith, All, Option-cases, inl, inr,
}
use nexus_net.Auth.Naming.{key_path}
use nexus_net.Auth.Cose.{sign_ed25519}
use nexus_net.Auth.Documents.{
  AuthNetwork, AuthLib, ServiceEntry, IndexDoc, WhitelistDoc, max_doc_bytes, max_services,
  max_members, index_key, service_key, sign_payload, sign_index, sign_whitelist, verify_index,
  verify_whitelist,
}
use nexus_net.Auth.Trust.{IsSigned, IsEntry, verify_index_iff, verify_whitelist_iff}

module _ {PublicKey Keypair Sign1 : Type 0} (lib : AuthLib PublicKey Keypair Sign1)
    (public : Keypair → PublicKey) where
  -- The builder of an envelope signs with EdDSA what `verify` accepts for the public key.
  abbrev pub SignsSoundly : Type 0
  SignsSoundly =
      (keypair : Keypair) (aad payload : List ℕ) (envelope : Sign1)
      → lib.cose_lib.sign keypair aad payload ≡ some envelope
      → (lib.cose_lib.is_eddsa envelope ≡ true)
        × (lib.cose_lib.verifies (public keypair) aad envelope ≡ true)
        × (lib.cose_lib.payload envelope ≡ some payload)

  -- An envelope is read as it was written.
  abbrev pub ReadsEnvelopes : Type 0
  ReadsEnvelopes =
      (envelope : Sign1) (value : List ℕ)
      → lib.cose_lib.to_vec envelope ≡ some value
      → lib.cose_lib.from_slice value ≡ some envelope

  -- The documents are read as they were written.
  abbrev pub ReadsIndexes : Type 0
  ReadsIndexes =
      (doc : IndexDoc) (payload : List ℕ)
      → lib.encode_index doc ≡ some payload
      → lib.decode_index payload ≡ some doc

  abbrev pub ReadsWhitelists : Type 0
  ReadsWhitelists =
      (doc : WhitelistDoc) (payload : List ℕ)
      → lib.encode_whitelist doc ≡ some payload
      → lib.decode_whitelist payload ≡ some doc

  sign_payload-IsSigned :
      (keypair : Keypair) (aad payload value : List ℕ)
      → SignsSoundly
      → ReadsEnvelopes
      → sign_payload lib keypair aad payload ≡ ok value
      → length value ≤ max_doc_bytes
      → IsSigned lib (public keypair) aad value payload
  unfolding sign_payload sign_ed25519
  sign_payload-IsSigned keypair aad payload value signs reads h small =
      elim (Option-cases (lib.cose_lib.sign keypair aad payload)) [
        | inl none' ↦ absurd (ground arith)
        | inr (envelope, built) ↦
            let (eddsa, signed, content) = signs keypair aad payload envelope built in
            let written : lib.cose_lib.to_vec envelope ≡ some value = ground arith in
            record {
              small = small;
              envelope = envelope;
              parsed = reads envelope value written;
              eddsa = eddsa;
              signed = signed;
              content = content;
            }
      ]

  -- If the libraries keep what they promise, an index of at most 10000 services with valid names and
  -- 32-byte digests that the authority signs is accepted, as it was signed, until it expires, unless
  -- the signed bytes are more than 1 MiB.
  pub verify_index-sign_index :
      (keypair : Keypair) (net : AuthNetwork PublicKey) (doc : IndexDoc) (value : List ℕ) (now : ℕ)
      → SignsSoundly
      → ReadsEnvelopes
      → ReadsIndexes
      → net.authority ≡ public keypair
      → sign_index lib keypair net doc ≡ ok value
      → length value ≤ max_doc_bytes
      → length doc.services ≤ max_services
      → All (IsEntry lib) doc.services
      → now ≤ doc.expires_at
      → verify_index lib net value now ≡ ok doc
  unfolding sign_index index_key
  verify_index-sign_index keypair net doc value now signs envelopes indexes own h small count
        entries fresh =
      elim (Option-cases (lib.encode_index doc)) [
        | inl none' ↦ absurd (ground arith)
        | inr (payload, encoded) ↦
            let written : sign_payload lib keypair (index_key lib net) payload ≡ ok value =
              ground arith in
            let signed =
              sign_payload-IsSigned keypair (index_key lib net) payload value signs envelopes
                written small in
            (verify_index_iff lib net value now doc).1 (record {
              payload = payload;
              signed = rw own signed;
              decoded = indexes doc payload encoded;
              count = count;
              entries = entries;
              unexpired = fresh;
            })
      ]

  -- If the libraries keep what they promise, a whitelist of at most 100000 members that the authority
  -- signs for a service is accepted, as it was signed, with an entry of the length and the digest of
  -- the signed bytes, unless they are more than 1 MiB.
  pub verify_whitelist-sign_whitelist :
      (keypair : Keypair) (net : AuthNetwork PublicKey) (service : Name) (doc : WhitelistDoc)
      (value : List ℕ) (entry : ServiceEntry)
      → SignsSoundly
      → ReadsEnvelopes
      → ReadsWhitelists
      → net.authority ≡ public keypair
      → sign_whitelist lib keypair net service doc ≡ ok value
      → length value ≤ max_doc_bytes
      → length doc.members ≤ max_members
      → entry.length_of ≡ length value
      → entry.hash ≡ lib.sha256 value
      → verify_whitelist lib net service value entry ≡ ok doc
  unfolding sign_whitelist service_key
  verify_whitelist-sign_whitelist keypair net service doc value entry signs envelopes lists own h
        small count same_length same_hash =
      elim (Option-cases (lib.encode_whitelist doc)) [
        | inl none' ↦ absurd (ground arith)
        | inr (payload, encoded) ↦
            let key = key_path net.net_hash service in
            let written : sign_payload lib keypair key payload ≡ ok value = ground arith in
            let signed =
              sign_payload-IsSigned keypair key payload value signs envelopes written small in
            (verify_whitelist_iff lib net service value entry doc).1 (record {
              same_length = ground arith;
              same_hash = ground arith;
              valid = ground arith;
              payload = payload;
              signed = rw own signed;
              decoded = lists doc payload encoded;
              count = count;
            })
      ]
