-- ===== src/Gate/Admission.antt =====
-- src/controller/auth_gate.rs: who is let in by `authorize`.
use nexus_net.Base.HashMap
use nexus_net.Base.{◌≤◌, ◌≡◌, true, false, some, Name, name_eq, ok}
use nexus_net.Config.Schema.{NodeConfig}
use nexus_net.Config.Access.{service_requires_auth}
use nexus_net.Auth.Documents.{AuthNetwork, ServiceEntry, IndexDoc, WhitelistDoc}
use nexus_net.Auth.Versions.{AuthVersions, is_older}
use nexus_net.Gate.Authorize.{active, AuthGate, CacheReads, whitelist_key, find_entry, any_member}

-- The peer is on the whitelist that the index of the caches names, and no version is older than the
-- highest seen.
pub record IsListed (reads : CacheReads) (target service : Name) (v : AuthVersions) : Type 0 where
  pub index : IndexDoc
  pub entry : ServiceEntry
  pub whitelist : WhitelistDoc
  pub index_read : reads.index ≡ ok (some index)
  pub unexpired : reads.now ≤ index.expires_at
  pub index_current : is_older index.version v.index ≡ false
  pub found : find_entry service index.services ≡ some entry
  pub whitelist_read : reads.whitelist (whitelist_key service entry index) ≡ ok (some whitelist)
  pub whitelist_current : is_older whitelist.version (HashMap.get v.whitelists service) ≡ false
  pub member : any_member target whitelist.members ≡ true

-- The versions once the index was accepted.
abbrev with_index : IndexDoc → AuthVersions → AuthVersions
with_index index v = record v { index = some index.version }

-- The gate is active with its caches, the service asks for authorization, and the peer is listed.
pub record IsAdmitted {Addr PublicKey : Type 0} (config : NodeConfig Addr) (reads : CacheReads)
    (target service : Name) (g : AuthGate PublicKey) : Type 0 where
  pub net : AuthNetwork PublicKey
  pub domain : AuthNetwork PublicKey
  pub is_active : g.state ≡ active net
  pub required : service_requires_auth config service ≡ true
  pub has_caches : g.caches ≡ some domain
  pub listed : IsListed reads target service g.versions
