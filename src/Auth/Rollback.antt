-- ===== src/Auth/Rollback.antt =====
-- src/auth.rs: sequences of checks of `AuthVersions`.
use nexus_net.Base.HashMap
use nexus_net.Base.{
  ℕ, ◌≤◌, ◌<◌, ◌≡◌, Option, none, some, List, [], ◌∷◌, Name, name_eq, name_beq_iff, Result, ok, err,
  arith,
}
use nexus_net.Auth.Documents.{AuthError, rollback}
use nexus_net.Auth.Versions.{AuthVersions, check_index, check_whitelist}

-- A check of `AuthVersions`.
pub data Check : Type 0 where
  index : ℕ → Check
  whitelist : Name → ℕ → Check

unfoldable pub check : Check → AuthVersions → AuthVersions × Result AuthError (Unit {0})
check (index version) v = check_index version v
check (whitelist service version) v = check_whitelist service version v

unfoldable pub run_checks : List Check → AuthVersions → AuthVersions
run_checks [] v = v
run_checks (c ∷ cs) v = run_checks cs (check c v).0

-- The version that the guard holds for one record: the index, or the whitelist of a service.
abbrev pub guarded : Option Name → AuthVersions → Option ℕ
guarded none v = v.index
guarded (some service) v = HashMap.get v.whitelists service

-- At least `low` was seen.
abbrev pub Reached : ℕ → Option ℕ → Type 0
Reached low none = ⊥
Reached low (some cur) = low ≤ cur

check-Reached :
    (r : Option Name) (low : ℕ) (c : Check) (v : AuthVersions)
    → Reached low (guarded r v)
    → Reached low (guarded r (check c v).0)
unfolding check check_index check_whitelist
check-Reached none low (index version) v h = ground arith
check-Reached none low (whitelist service version) v h = ground arith
check-Reached (some s) low (index version) v h = ground arith
check-Reached (some s) low (whitelist service version) v h =
    ground (arith, name_beq_iff service s, HashMap.get-insert service s version v.whitelists)

run_checks-Reached :
    (r : Option Name) (low : ℕ) (cs : List Check) (v : AuthVersions)
    → Reached low (guarded r v)
    → Reached low (guarded r (run_checks cs v))
unfolding run_checks
run_checks-Reached r low [] v h = h
run_checks-Reached r low (c ∷ cs) v h =
    run_checks-Reached r low cs (check c v).0 (check-Reached r low c v h)

-- The check of one record at a version.
abbrev pub at_version : Option Name → ℕ → Check
at_version none version = index version
at_version (some service) version = whitelist service version

accepted-Reached :
    (r : Option Name) (version : ℕ) (v : AuthVersions)
    → (check (at_version r version) v).1 ≡ ok tt
    → Reached version (guarded r (check (at_version r version) v).0)
unfolding check check_index check_whitelist
accepted-Reached none version v h = ground arith
accepted-Reached (some s) version v h =
    ground (arith, name_beq_iff s s, HashMap.get-insert s s version v.whitelists)

refused_below :
    (r : Option Name) (low version : ℕ) (v : AuthVersions)
    → Reached low (guarded r v)
    → version < low
    → check (at_version r version) v ≡ (v, err rollback)
unfolding check check_index check_whitelist
refused_below none low version v h lt = ground arith
refused_below (some s) low version v h lt = ground arith

-- Once a version of a record is accepted, every lower version of that record is refused and leaves
-- the guard as it is, whatever was checked in between.
pub no_rollback :
    (r : Option Name) (high low : ℕ) (cs : List Check) (v : AuthVersions)
    → (check (at_version r high) v).1 ≡ ok tt
    → low < high
    → let w = run_checks cs (check (at_version r high) v).0 in
      check (at_version r low) w ≡ (w, err rollback)
no_rollback r high low cs v accepted lt =
    refused_below r high low _ (run_checks-Reached r high cs _ (accepted-Reached r high v accepted))
      lt
