-- ===== src/Tests/Signing.antt =====
-- The round trips of src/auth.rs with toy libraries, whose public key is the key itself and whose
-- codec knows one index and one whitelist.
use nexus_net.Base.{
  ℕ, ◌≡◌, refl, none, some, List, [], ◌∷◌, name_beq, bytes, ok, arith, if◌then◌else◌, ==_iff,
}
use nexus_net.Auth.Naming.{is_valid_service_name, is_valid_network_name}
use nexus_net.Auth.Cose.{sign_ed25519}
use nexus_net.Auth.Documents.{
  AuthLib, IndexDoc, WhitelistDoc, sign_payload, sign_index, verify_index,
}
use nexus_net.Auth.Equality.{
  index_beq, index_beq_iff, whitelist_beq, whitelist_beq_iff, list_beq, entry_beq,
}
use nexus_net.Auth.Roundtrip.{
  SignsSoundly, ReadsEnvelopes, ReadsIndexes, ReadsWhitelists, verify_index-sign_index,
}
use nexus_net.Tests.Data.{toy_auth, toy_net, web_entry}

abbrev index : IndexDoc
index = record { version = 1; expires_at = 100; services = web_entry ∷ [] }

abbrev whitelist : WhitelistDoc
whitelist = record { version = 1; members = bytes "peer" ∷ [] }

abbrev strict_auth : AuthLib ℕ ℕ (List ℕ)
strict_auth = record toy_auth {
  encode_index = λ d. if index_beq d index then some (1 ∷ []) else none;
  encode_whitelist = λ d. if whitelist_beq d whitelist then some (1 ∷ []) else none;
}

abbrev same_key : ℕ → ℕ
same_key key = key

strict_signs : SignsSoundly strict_auth same_key
strict_signs keypair aad payload envelope h = ground (arith, ==_iff keypair keypair)

strict_envelopes : ReadsEnvelopes strict_auth same_key
strict_envelopes envelope value h = ground arith

strict_indexes : ReadsIndexes strict_auth same_key
strict_indexes doc payload h = ground (arith, index_beq_iff doc index)

strict_whitelists : ReadsWhitelists strict_auth same_key
strict_whitelists doc payload h = ground (arith, whitelist_beq_iff doc whitelist)

verify_index-sign_index_example : verify_index strict_auth toy_net (7 ∷ 1 ∷ []) 50 ≡ ok index
unfolding sign_index sign_payload sign_ed25519 index_beq list_beq entry_beq name_beq
    is_valid_service_name is_valid_network_name
verify_index-sign_index_example =
    verify_index-sign_index strict_auth same_key 7 toy_net index (7 ∷ 1 ∷ []) 50 strict_signs
      strict_envelopes strict_indexes refl refl (omega arith) (omega arith) ((refl, refl), tt)
      (omega arith)
