-- ===== src/Gate/Authorize.antt =====
-- `AuthGate`: its state and `authorize`. What the two caches return is an argument of the
-- call; the calls of `invalidate` are part of its outcome.
use nexus_net.Base.{
  ℕ, Bool, false, not, ◌||◌, Option, none, some, List, [], ◌∷◌, Name, name_beq, Result, ok, err,
  ltb, if◌then◌else◌,
}
use nexus_net.Config.Schema.{NodeConfig}
use nexus_net.Config.Access.{service_requires_auth}
use nexus_net.Auth.Documents.{AuthError, AuthNetwork, ServiceEntry, IndexDoc, WhitelistDoc}
use nexus_net.Auth.Versions.{AuthVersions, check_index, check_whitelist}

-- The texts of `AuthState::Misconfigured`.
pub data Misconfiguration : Type 0 where
  invalid_authority_key : AuthError → Misconfiguration
  no_authority_key : Misconfiguration

pub data AuthState (PublicKey : Type 0) : Type 0 where
  disabled : AuthState PublicKey
  active : AuthNetwork PublicKey → AuthState PublicKey
  misconfigured : Misconfiguration → AuthState PublicKey

-- The texts of `Decision::Deny`.
pub data Denial : Type 0 where
  configuration : Misconfiguration → Denial
  caches_unavailable index_unavailable index_expired index_rollback : Denial
  index_query_failed whitelist_query_failed : Name → Denial
  whitelist_unavailable whitelist_rollback peer_not_authorized : Denial

pub data Decision : Type 0 where
  allow allow_unprotected : Decision
  deny : Denial → Decision

pub record WhitelistKey : Type 0 where
  pub service : Name
  pub hash : List ℕ
  pub length_of : ℕ
  pub index_expires_at : ℕ

pub data Invalidation : Type 0 where
  invalidate_index : Invalidation
  invalidate_whitelist : WhitelistKey → Invalidation

pub record Outcome : Type 0 where
  pub decision : Decision
  pub versions : AuthVersions
  pub invalidated : List Invalidation

abbrev pub outcome : Decision → AuthVersions → Outcome
outcome decision versions = record { decision = decision; versions = versions; invalidated = [] }

-- `services.iter().find(…)`
unfoldable pub find_entry : Name → List ServiceEntry → Option ServiceEntry
find_entry service [] = none
find_entry service (e ∷ rest) = if name_beq e.name service then some e else find_entry service rest

-- `members.iter().any(…)`
unfoldable pub any_member : Name → List Name → Bool
any_member target [] = false
any_member target (m ∷ rest) = name_beq m target || any_member target rest

-- What a call reads of the caches and the clock.
pub record CacheReads : Type 0 where
  pub index : Result Name (Option IndexDoc)
  pub whitelist : WhitelistKey → Result Name (Option WhitelistDoc)
  pub now : ℕ

abbrev pub whitelist_key : Name → ServiceEntry → IndexDoc → WhitelistKey
whitelist_key service entry index = record {
  service = service;
  hash = entry.hash;
  length_of = entry.length_of;
  index_expires_at = index.expires_at;
}

-- The last part of `authorize`, on the whitelist of the service.
unfoldable pub authorize_member : WhitelistKey → WhitelistDoc → Name → AuthVersions → Outcome
authorize_member key whitelist target versions =
    let (v, checked) = check_whitelist key.service whitelist.version versions in
    elim checked [
      | err _ ↦ record {
        decision = deny whitelist_rollback;
        versions = v;
        invalidated = invalidate_whitelist key ∷ [];
      }
      | ok _ ↦
          outcome (if any_member target whitelist.members then allow else deny peer_not_authorized)
            v
    ]

unfoldable pub authorize_whitelist :
    WhitelistKey → Result Name (Option WhitelistDoc) → Name → AuthVersions → Outcome
authorize_whitelist key (err error) target versions =
    outcome (deny (whitelist_query_failed error)) versions
authorize_whitelist key (ok none) target versions = outcome (deny whitelist_unavailable) versions
authorize_whitelist key (ok (some whitelist)) target versions =
    authorize_member key whitelist target versions

-- `authorize` from the lookup of the service in the index.
unfoldable pub authorize_entry :
    Option ServiceEntry → IndexDoc → CacheReads → Name → Name → AuthVersions → Outcome
authorize_entry none index reads target service versions = outcome allow_unprotected versions
authorize_entry (some entry) index reads target service versions =
    let key = whitelist_key service entry index in
    authorize_whitelist key (reads.whitelist key) target versions

-- `authorize` from the index on.
unfoldable pub authorize_index : IndexDoc → CacheReads → Name → Name → AuthVersions → Outcome
authorize_index index reads target service versions =
    if ltb index.expires_at reads.now
    then outcome (deny index_expired) versions
    else let (v, checked) = check_index index.version versions in
      elim checked [
        | err _ ↦ record {
          decision = deny index_rollback;
          versions = v;
          invalidated = invalidate_index ∷ [];
        }
        | ok _ ↦ authorize_entry (find_entry service index.services) index reads target service v
      ]

unfoldable pub authorize_cached :
    Result Name (Option IndexDoc) → CacheReads → Name → Name → AuthVersions → Outcome
authorize_cached (err error) reads target service versions =
    outcome (deny (index_query_failed error)) versions
authorize_cached (ok none) reads target service versions = outcome (deny index_unavailable) versions
authorize_cached (ok (some index)) reads target service versions =
    authorize_index index reads target service versions

-- `caches` holds the network whose records the two caches fetch.
pub record AuthGate (PublicKey : Type 0) : Type 0 where
  pub state : AuthState PublicKey
  pub caches : Option (AuthNetwork PublicKey)
  pub versions : AuthVersions

unfoldable pub authorize :
    {Addr PublicKey : Type 0}
    → NodeConfig Addr
    → CacheReads
    → Name
    → Name
    → AuthGate PublicKey
    → Outcome
authorize config reads target service g = elim g.state [
  | disabled ↦ outcome allow g.versions
  | misconfigured reason ↦ outcome (deny (configuration reason)) g.versions
  | active net ↦
      if not (service_requires_auth config service)
      then outcome allow g.versions
      else elim g.caches [
        | none ↦ outcome (deny caches_unavailable) g.versions
        | some _ ↦ authorize_cached reads.index reads target service g.versions
      ]
]
