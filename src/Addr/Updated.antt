-- ===== src/Addr/Updated.antt =====
-- The configuration after `update_config_with_public_ip`.
use nexus_net.Base.{
  ◌≡◌, subst, sym, All, select-All, select_passes, ap, refl, Bool, true, not, Option, none, some,
  List, [], ◌∷◌, select, arith, name_beq_iff,
}
use nexus_net.Config.Schema.{IpAddr, v4, v6, NetworkConfig}
use nexus_net.Addr.{
  is_public, get_public_ips, is_ipv4, is_ipv6, first, is_none, ip_beq, same_address,
  clear_stale_public_addresses, set_addresses, update_network, update_config_with_public_ip,
}

ip_beq-eq : (a b : IpAddr) → ip_beq a b ≡ true → a ≡ b
unfolding ip_beq
ip_beq-eq (v4 a) (v4 b) h = ap v4 ((name_beq_iff a b).0 h)
ip_beq-eq (v6 a) (v6 b) h = ap v6 ((name_beq_iff a b).0 h)
ip_beq-eq (v4 a) (v6 b) h = absurd (ground arith)
ip_beq-eq (v6 a) (v4 b) h = absurd (ground arith)

same_address-eq : (a b : Option IpAddr) → same_address a b ≡ true → a ≡ b
same_address-eq none none h = refl
same_address-eq none (some b) h = absurd (ground arith)
same_address-eq (some a) none h = absurd (ground arith)
same_address-eq (some a) (some b) h = ap some (ip_beq-eq a b h)

-- Both addresses are the first public ones of their families, and the flag says whether there is one.
pub record IsUpdated (public_ips : List IpAddr) (network : NetworkConfig) : Type 0 where
  pub ipv4 : network.ipv4_address ≡ first (select is_ipv4 public_ips)
  pub ipv6 : network.ipv6_address ≡ first (select is_ipv6 public_ips)
  pub found : network.has_public_address ≡ not (is_none (first public_ips))

is_none-eq : {A : Type 0} (a : Option A) → is_none a ≡ true → a ≡ none
is_none-eq none h = refl
is_none-eq (some a) h = absurd (ground arith)

update_network-IsUpdated :
    (public_ips : List IpAddr) (network : NetworkConfig)
    → IsUpdated public_ips (update_network public_ips network).0
unfolding update_network clear_stale_public_addresses set_addresses
update_network-IsUpdated public_ips network =
    let ipv4 = first (select is_ipv4 public_ips) in
    let ipv6 = first (select is_ipv6 public_ips) in
    record {
      ipv4 = ground (
        arith,
        same_address-eq network.ipv4_address ipv4,
        is_none-eq ipv4,
        is_none-eq network.ipv4_address,
      );
      ipv6 = ground (
        arith,
        same_address-eq network.ipv6_address ipv6,
        is_none-eq ipv6,
        is_none-eq network.ipv6_address,
      );
      found = ground arith;
    }

-- The address, if there is one, is public.
abbrev pub IsPublic : Option IpAddr → Type 0
IsPublic none = Unit {0}
IsPublic (some ip) = is_public ip ≡ true

first-IsPublic : (l : List IpAddr) → All (λ ip. is_public ip ≡ true) l → IsPublic (first l)
first-IsPublic [] h = tt
first-IsPublic (ip ∷ l) h = h.0

chosen-IsPublic :
    (family : IpAddr → Bool) (interfaces : List IpAddr)
    → IsPublic (first (select family (get_public_ips interfaces)))
unfolding get_public_ips
chosen-IsPublic family interfaces = first-IsPublic (select family (select is_public interfaces)) (
    select-All family (λ ip. is_public ip ≡ true) (select is_public interfaces)
      (select_passes is_public interfaces))

-- On every branch of the update, each of the two addresses of the configuration becomes the first
-- public address of its family, or none if there is none, and `has_public_address` says whether this
-- host has a public address; so an address in the configuration is public.
pub update_config_addresses :
    (interfaces : List IpAddr) (network : NetworkConfig)
    → IsUpdated (get_public_ips interfaces) (update_config_with_public_ip interfaces network).0
      × IsPublic (update_config_with_public_ip interfaces network).0.ipv4_address
      × IsPublic (update_config_with_public_ip interfaces network).0.ipv6_address
unfolding update_config_with_public_ip
update_config_addresses interfaces network =
    let updated = update_network-IsUpdated (get_public_ips interfaces) network in
    (
      updated,
      subst IsPublic (sym updated.ipv4) (chosen-IsPublic is_ipv4 interfaces),
      subst IsPublic (sym updated.ipv6) (chosen-IsPublic is_ipv6 interfaces),
    )
