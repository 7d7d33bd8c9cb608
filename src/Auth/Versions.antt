-- ===== src/Auth/Versions.antt =====
-- src/auth.rs: `AuthVersions`, the rollback guard.
use nexus_net.Base.HashMap
use nexus_net.Base.{
  ℕ, Option, none, some, List, [], Name, name_eq, Result, ok, err, ltb, Bool, false, if◌then◌else◌,
}
use nexus_net.Auth.Documents.{AuthError, rollback}

pub record AuthVersions : Type 0 where
  pub index : Option ℕ
  pub whitelists : List (Name × ℕ)

abbrev pub fresh : AuthVersions
fresh = record { index = none; whitelists = [] }

-- Whether a version is lower than the highest seen.
abbrev pub is_older : ℕ → Option ℕ → Bool
is_older version none = false
is_older version (some cur) = ltb version cur

-- The state after the check, with its result.
unfoldable pub check_index : ℕ → AuthVersions → AuthVersions × Result AuthError (Unit {0})
check_index version v =
    if is_older version v.index
    then (v, err rollback)
    else (record v { index = some version }, ok tt)

unfoldable pub check_whitelist :
    Name → ℕ → AuthVersions → AuthVersions × Result AuthError (Unit {0})
check_whitelist service version v =
    if is_older version (HashMap.get v.whitelists service)
    then (v, err rollback)
    else (record v { whitelists = HashMap.insert service version v.whitelists }, ok tt)
