-- ===== src/Tests/Gate.antt =====
-- src/controller/auth_gate.rs at concrete inputs.
use nexus_net.Base.HashMap
use nexus_net.Base.{ℕ, ◌≡◌, refl, some, List, [], ◌∷◌, name_eq, name_beq, bytes, ok, length, All}
use nexus_net.Config.Schema.{NodeConfig}
use nexus_net.Config.Access.{service_requires_auth, any_requires_auth}
use nexus_net.Auth.Documents.{
  IndexDoc, WhitelistDoc, verify_index, verify_whitelist, verify_payload, check_entries,
  service_key,
}
use nexus_net.Auth.Cose.{verify_ed25519}
use nexus_net.Auth.Naming.{is_valid_service_name, is_valid_network_name}
use nexus_net.Auth.Trust.{IsTrustedWhitelist}
use nexus_net.Auth.Versions.{fresh, check_index, check_whitelist}
use nexus_net.Gate.Select.{select_index, select_whitelist, select_best, weigh}
use nexus_net.Gate.Chosen.{Some, IsOlder, select_whitelist_newest}
use nexus_net.Gate.Authorize.{
  AuthGate, active, authorize, allow, CacheReads, authorize_cached, authorize_index,
  authorize_entry, find_entry, authorize_whitelist, authorize_member, any_member,
}
use nexus_net.Gate.Reload.{CachesMatch, reload, reload-CachesMatch}
use nexus_net.Tests.Data.{web, local_two, toy_auth, toy_net, web_entry, node_config}

-- A configuration with two services that ask for authorization.
abbrev guarded_config : NodeConfig ℕ
guarded_config = record node_config {
  services = record (node_config.services) {
    dispatcher = record (node_config.services.dispatcher) { local_services = local_two };
  };
}

abbrev first_index : IndexDoc
first_index = record { version = 1; expires_at = 100; services = web_entry ∷ [] }

abbrev second_index : IndexDoc
second_index = record { version = 2; expires_at = 100; services = web_entry ∷ [] }

abbrev first_whitelist : WhitelistDoc
first_whitelist = record { version = 1; members = bytes "peer" ∷ [] }

abbrev second_whitelist : WhitelistDoc
second_whitelist = record { version = 2; members = bytes "peer" ∷ [] }

abbrev reads : CacheReads
reads = record {
  index = ok (some first_index);
  whitelist = λ key. ok (some first_whitelist);
  now = 50;
}

abbrev gate : AuthGate ℕ
gate = record { state = active toy_net; caches = some toy_net; versions = fresh }

-- This peer is let in.
let_in : (authorize guarded_config reads (bytes "peer") web gate).decision ≡ allow
unfolding authorize service_requires_auth any_requires_auth name_beq authorize_cached
    authorize_index check_index authorize_entry find_entry authorize_whitelist authorize_member
    check_whitelist HashMap.get any_member
let_in = refl

-- Records of two versions, and one that does not verify.
abbrev records : List (List ℕ)
records = (7 ∷ 1 ∷ []) ∷ (3 ∷ 9 ∷ []) ∷ (7 ∷ 2 ∷ []) ∷ []

chosen_index : select_index toy_auth records toy_net 50 ≡ ok (some (second_index, 2))
unfolding select_index select_best weigh verify_index verify_payload verify_ed25519 check_entries
    is_valid_service_name is_valid_network_name name_beq
chosen_index = refl

chosen_whitelist :
    select_whitelist toy_auth records toy_net web web_entry ≡ ok (some (second_whitelist, 2))
unfolding select_whitelist select_best weigh verify_whitelist service_key verify_payload
    verify_ed25519 is_valid_service_name is_valid_network_name name_beq
chosen_whitelist = refl

select_whitelist_newest_example :
    Some
      (λ value.
        IsTrustedWhitelist toy_auth toy_net web value web_entry second_whitelist
        × (length value ≡ 2))
      records
    × All
        (IsOlder
          (λ (d : WhitelistDoc). d.version)
          (λ value. verify_whitelist toy_auth toy_net web value web_entry)
          second_whitelist)
        records
select_whitelist_newest_example =
    select_whitelist_newest toy_auth records toy_net web web_entry second_whitelist 2
      chosen_whitelist

abbrev to_bytes : ℕ → List ℕ
to_bytes key = key ∷ []

reload-CachesMatch_example :
    CachesMatch to_bytes
      (reload toy_auth to_bytes guarded_config gate).state
      (reload toy_auth to_bytes guarded_config gate).caches
unfolding CachesMatch
reload-CachesMatch_example = reload-CachesMatch to_bytes toy_auth guarded_config gate (refl, refl)
