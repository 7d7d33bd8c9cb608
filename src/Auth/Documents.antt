-- ===== src/Auth/Documents.antt =====
-- src/auth.rs: the documents, and `verify_index`, `verify_whitelist`, `sign_index`,
-- `sign_whitelist`. CBOR, SHA-256 and base64 are parameters beside the COSE library.
use nexus_net.Base.{
  ℕ, not, ◌||◌, ◌==◌, Option, List, [], ◌∷◌, Name, Result, ok, err, ◌>>=◌, ◌>>◌, refuse_if, length,
  ltb, name_beq,
}
use nexus_net.Config.Schema.{dht_max_record_bytes}
use nexus_net.Auth.Naming.{is_valid_network_name, is_valid_service_name, key_path, reserved_service}
use nexus_net.Auth.Cose.{CoseError, CoseLib, ok_or, sign_ed25519, verify_ed25519}

abbrev pub max_doc_bytes : ℕ
max_doc_bytes = dht_max_record_bytes

abbrev pub max_members : ℕ
max_members = 100_000

abbrev pub max_services : ℕ
max_services = 10_000

pub data AuthError : Type 0 where
  cose malformed invalid_authority invalid_signature expired rollback : AuthError
  hash_mismatch not_in_index too_large invalid_name : AuthError

pub record AuthNetwork (PublicKey : Type 0) : Type 0 where
  pub net_hash : Name
  pub authority : PublicKey

pub record ServiceEntry : Type 0 where
  pub name : Name
  pub hash : List ℕ
  pub length_of : ℕ

pub record IndexDoc : Type 0 where
  pub version : ℕ
  pub expires_at : ℕ
  pub services : List ServiceEntry

pub record WhitelistDoc : Type 0 where
  pub version : ℕ
  pub members : List Name

-- The codecs and the hash.
pub record AuthLib (PublicKey Keypair Sign1 : Type 0) : Type 0 where
  pub cose_lib : CoseLib PublicKey Keypair Sign1
  pub encode_index : IndexDoc → Option (List ℕ)
  pub decode_index : List ℕ → Option IndexDoc
  pub encode_whitelist : WhitelistDoc → Option (List ℕ)
  pub decode_whitelist : List ℕ → Option WhitelistDoc
  -- `Sha256::digest`
  pub sha256 : List ℕ → List ℕ
  -- `URL_SAFE_NO_PAD.encode`
  pub base64url : List ℕ → Name
  -- `STANDARD.decode` and `PublicKey::try_from_bytes`
  pub decode_key : Name → Option PublicKey

abbrev pub map_cose_error {ℓ} : {A : Type ℓ} → Result CoseError A → Result AuthError A
map_cose_error (ok a) = ok a
map_cose_error (err CoseError.cose) = err AuthError.cose
map_cose_error (err CoseError.malformed) = err AuthError.malformed
map_cose_error (err CoseError.invalid_signature) = err AuthError.invalid_signature
map_cose_error (err CoseError.too_large) = err AuthError.too_large

-- The loop of `verify_index` over the entries.
unfoldable pub check_entries : List ServiceEntry → Result AuthError (Unit {0})
check_entries [] = ok tt
check_entries (entry ∷ rest) = do
  refuse_if (not (is_valid_service_name entry.name)) invalid_name
  refuse_if (not (length entry.hash == 32)) malformed
  check_entries rest

module _ {PublicKey Keypair Sign1 : Type 0} (lib : AuthLib PublicKey Keypair Sign1) where
  unfoldable pub parse_authority : Name → Result AuthError PublicKey
  parse_authority b64 = ok_or (lib.decode_key b64) invalid_authority

  unfoldable pub new_network : Name → Name → Result AuthError (AuthNetwork PublicKey)
  new_network name authority_b64 = do
    refuse_if (not (is_valid_network_name name)) invalid_name
    authority ← parse_authority authority_b64
    ok (record { net_hash = lib.base64url (lib.sha256 name); authority = authority })

  unfoldable pub index_key : AuthNetwork PublicKey → Name
  index_key net = key_path net.net_hash reserved_service

  unfoldable pub service_key : AuthNetwork PublicKey → Name → Result AuthError Name
  service_key net service = do
    refuse_if (not (is_valid_service_name service)) invalid_name
    ok (key_path net.net_hash service)

  unfoldable pub verify_payload : PublicKey → List ℕ → List ℕ → Result AuthError (List ℕ)
  verify_payload authority aad value =
      map_cose_error (verify_ed25519 lib.cose_lib authority aad value max_doc_bytes)

  unfoldable pub sign_payload : Keypair → List ℕ → List ℕ → Result AuthError (List ℕ)
  sign_payload keypair aad payload = map_cose_error (sign_ed25519 lib.cose_lib keypair aad payload)

  unfoldable pub sign_index : Keypair → AuthNetwork PublicKey → IndexDoc → Result AuthError (List ℕ)
  sign_index keypair net doc = do
    payload ← ok_or (lib.encode_index doc) malformed
    sign_payload keypair (index_key net) payload

  unfoldable pub sign_whitelist :
      Keypair → AuthNetwork PublicKey → Name → WhitelistDoc → Result AuthError (List ℕ)
  sign_whitelist keypair net service doc = do
    key ← service_key net service
    payload ← ok_or (lib.encode_whitelist doc) malformed
    sign_payload keypair key payload

  unfoldable pub verify_index : AuthNetwork PublicKey → List ℕ → ℕ → Result AuthError IndexDoc
  verify_index net value now = do
    payload ← verify_payload net.authority (index_key net) value
    doc ← ok_or (lib.decode_index payload) malformed
    refuse_if (ltb max_services (length doc.services)) too_large
    check_entries doc.services
    refuse_if (ltb doc.expires_at now) expired
    ok doc

  unfoldable pub verify_whitelist :
      AuthNetwork PublicKey → Name → List ℕ → ServiceEntry → Result AuthError WhitelistDoc
  verify_whitelist net service value entry = do
    refuse_if
        (not (length value == entry.length_of) || not (name_beq (lib.sha256 value) entry.hash))
        hash_mismatch
    key ← service_key net service
    payload ← verify_payload net.authority key value
    doc ← ok_or (lib.decode_whitelist payload) malformed
    refuse_if (ltb max_members (length doc.members)) too_large
    ok doc
