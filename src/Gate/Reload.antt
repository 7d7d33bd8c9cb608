-- ===== src/Gate/Reload.antt =====
-- src/controller/auth_gate.rs: `resolve_state`, `same_trust_domain`, `new` and `reload`, with the
-- caches of a gate and its state.
use nexus_net.Base.{
  ℕ, Bool, true, false, ◌&&◌, ◌≡◌, ◌∙◌, refl, Option, none, some, List, Name, bytes, name_beq,
  name_beq_iff, ok, err, if◌then◌else◌, arith, Bool-cases, inl, inr,
}
use nexus_net.Config.Schema.{NodeConfig}
use nexus_net.Config.Access.{auth_authority}
use nexus_net.Auth.Documents.{AuthNetwork, AuthLib, new_network}
use nexus_net.Auth.Versions.{fresh}
use nexus_net.Gate.Authorize.{
  AuthState, disabled, active, misconfigured, no_authority_key, invalid_authority_key, AuthGate,
}

unfoldable pub resolve_authority :
    {PublicKey Keypair Sign1 : Type 0}
    → AuthLib PublicKey Keypair Sign1
    → Name
    → Option Name
    → AuthState PublicKey
resolve_authority lib network none = misconfigured no_authority_key
resolve_authority lib network (some authority) = elim (new_network lib network authority) [
  | ok net ↦ active net
  | err e ↦ misconfigured (invalid_authority_key e)
]

unfoldable pub resolve_state :
    {Addr PublicKey Keypair Sign1 : Type 0}
    → AuthLib PublicKey Keypair Sign1
    → NodeConfig Addr
    → AuthState PublicKey
resolve_state lib config =
    if name_beq config.auth.network (bytes "none")
    then disabled
    else resolve_authority lib config.auth.network (auth_authority config config.auth.network)

-- `authority.to_bytes()` is a parameter.
unfoldable pub same_trust_domain :
    {PublicKey : Type 0} → (PublicKey → List ℕ) → AuthState PublicKey → AuthState PublicKey → Bool
same_trust_domain to_bytes (active a) (active b) =
    name_beq a.net_hash b.net_hash && name_beq (to_bytes a.authority) (to_bytes b.authority)
same_trust_domain to_bytes disabled disabled = true
same_trust_domain to_bytes _ _ = false

-- The caches that a state is built with.
unfoldable pub build_caches :
    {PublicKey : Type 0} → AuthState PublicKey → Option (AuthNetwork PublicKey)
build_caches (active net) = some net
build_caches disabled = none
build_caches (misconfigured reason) = none

-- The caches after a reload within one trust domain.
unfoldable pub keep_caches :
    {PublicKey : Type 0}
    → Option (AuthNetwork PublicKey)
    → AuthState PublicKey
    → Option (AuthNetwork PublicKey)
keep_caches none (active net) = some net
keep_caches (some old) (active net) = some old
keep_caches _ disabled = none
keep_caches _ (misconfigured reason) = none

unfoldable pub new_gate :
    {Addr PublicKey Keypair Sign1 : Type 0}
    → AuthLib PublicKey Keypair Sign1
    → NodeConfig Addr
    → AuthGate PublicKey
new_gate lib config =
    let state = resolve_state lib config in
    record { state = state; caches = build_caches state; versions = fresh }

unfoldable pub reload :
    {Addr PublicKey Keypair Sign1 : Type 0}
    → AuthLib PublicKey Keypair Sign1
    → (PublicKey → List ℕ)
    → NodeConfig Addr
    → AuthGate PublicKey
    → AuthGate PublicKey
reload lib to_bytes config g =
    let next = resolve_state lib config in
    let same_domain = same_trust_domain to_bytes g.state next in
    record {
      state = next;
      caches = if same_domain then keep_caches g.caches next else build_caches next;
      versions = if same_domain then g.versions else fresh;
    }

module _ {PublicKey : Type 0} (to_bytes : PublicKey → List ℕ) where
  abbrev SameDomain : AuthNetwork PublicKey → AuthNetwork PublicKey → Type 0
  SameDomain a b = (a.net_hash ≡ b.net_hash) × (to_bytes a.authority ≡ to_bytes b.authority)

  -- Caches of the state's trust domain exist if, and only if, it is active.
  unfoldable pub CachesMatch : AuthState PublicKey → Option (AuthNetwork PublicKey) → Type 0
  CachesMatch (active net) none = ⊥
  CachesMatch (active net) (some c) = SameDomain c net
  CachesMatch disabled caches = caches ≡ none
  CachesMatch (misconfigured reason) caches = caches ≡ none

  build-CachesMatch : (state : AuthState PublicKey) → CachesMatch state (build_caches state)
  unfolding CachesMatch build_caches
  build-CachesMatch (active net) = (refl, refl)
  build-CachesMatch disabled = refl
  build-CachesMatch (misconfigured reason) = refl

  keep-CachesMatch :
      (old next : AuthState PublicKey) (caches : Option (AuthNetwork PublicKey))
      → CachesMatch old caches
      → same_trust_domain to_bytes old next ≡ true
      → CachesMatch next (keep_caches caches next)
  unfolding CachesMatch keep_caches same_trust_domain
  keep-CachesMatch (active a) (active b) none h same = absurd h
  keep-CachesMatch (active a) (active b) (some c) h same = (
    h.0 ∙ (name_beq_iff a.net_hash b.net_hash).0 (ground arith),
    h.1 ∙ (name_beq_iff (to_bytes a.authority) (to_bytes b.authority)).0 (ground arith),
  )
  keep-CachesMatch (active a) disabled caches h same = absurd (ground arith)
  keep-CachesMatch (active a) (misconfigured reason) caches h same = absurd (ground arith)
  keep-CachesMatch disabled (active b) caches h same = absurd (ground arith)
  keep-CachesMatch disabled disabled caches h same = ground arith
  keep-CachesMatch disabled (misconfigured reason) caches h same = absurd (ground arith)
  keep-CachesMatch (misconfigured reason) next caches h same = absurd (ground arith)

  module _ {Addr Keypair Sign1 : Type 0} (lib : AuthLib PublicKey Keypair Sign1) where
    -- A new gate has caches exactly if it is active.
    pub new_gate-CachesMatch :
        (config : NodeConfig Addr)
        → CachesMatch (new_gate lib config).state (new_gate lib config).caches
    unfolding new_gate
    new_gate-CachesMatch config = build-CachesMatch (resolve_state lib config)

    -- If the caches of a gate match its state, that is, exist exactly if it is active and fetch
    -- the records of its trust domain, they do after a reload of any configuration.
    pub reload-CachesMatch :
        (config : NodeConfig Addr) (g : AuthGate PublicKey)
        → CachesMatch g.state g.caches
        → CachesMatch (reload lib to_bytes config g).state (reload lib to_bytes config g).caches
    unfolding reload
    reload-CachesMatch config g h =
        let next = resolve_state lib config in
        elim (Bool-cases (same_trust_domain to_bytes g.state next)) [
          | inl same ↦ rw same (keep-CachesMatch g.state next g.caches h same)
          | inr other ↦ rw other (build-CachesMatch next)
        ]
