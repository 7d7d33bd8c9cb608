-- ===== src/Tests/Auth.antt =====
-- src/auth.rs and src/config.rs at concrete inputs.
use nexus_net.Base.HashMap
use nexus_net.Base.{◌≡◌, ◌↔◌, refl, some, List, [], ◌∷◌, name_eq, bytes, ok, err, arith}
use nexus_net.Auth.Documents.{IndexDoc, WhitelistDoc, verify_whitelist, rollback}
use nexus_net.Auth.Trust.{IsTrustedWhitelist, verify_whitelist_iff}
use nexus_net.Auth.Versions.{AuthVersions, fresh, check_whitelist}
use nexus_net.Auth.Rollback.{Check, check, run_checks, at_version, no_rollback}
use nexus_net.Tests.Data.{web, toy_auth, toy_net, web_entry}

abbrev first_index : IndexDoc
first_index = record { version = 1; expires_at = 100; services = web_entry ∷ [] }

abbrev first_whitelist : WhitelistDoc
first_whitelist = record { version = 1; members = bytes "peer" ∷ [] }

verify_whitelist_iff_example :
    (verify_whitelist toy_auth toy_net web (7 ∷ 1 ∷ []) web_entry ≡ ok first_whitelist)
    ↔ IsTrustedWhitelist toy_auth toy_net web (7 ∷ 1 ∷ []) web_entry first_whitelist
verify_whitelist_iff_example =
    verify_whitelist_iff toy_auth toy_net web (7 ∷ 1 ∷ []) web_entry first_whitelist

-- Two other checks, one of them of the same whitelist at a higher version.
abbrev others : List Check
others = Check.index 9 ∷ Check.whitelist web 6 ∷ []

abbrev after_others : AuthVersions
after_others = run_checks others (check (at_version (some web) 5) fresh).0

no_rollback_example : check (at_version (some web) 4) after_others ≡ (after_others, err rollback)
unfolding check check_whitelist HashMap.get
no_rollback_example = no_rollback (some web) 5 4 others fresh refl (omega arith)
