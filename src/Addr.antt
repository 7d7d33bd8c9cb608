-- ===== src/Addr.antt =====
-- src/network/addr.rs: which addresses of this host are public, and how they get into the
-- configuration. The addresses of the interfaces are an argument; an address is its octets. Saving the
-- configuration is a flag of the outcome.
pub mod Updated
use nexus_net.Base.{
  ℕ, zero, suc, ◌/◌, ◌==◌, Bool, true, false, not, ◌&&◌, ◌||◌, Option, none, some, List, [], ◌∷◌,
  select, leb, name_beq, if◌then◌else◌,
}
use nexus_net.Config.Schema.{IpAddr, v4, v6, NetworkConfig, NodeConfig}

abbrev pub octet : ℕ → List ℕ → ℕ
octet n [] = 0
octet zero (x ∷ xs) = x
octet (suc n) (x ∷ xs) = octet n xs

-- `Ipv4Addr::is_loopback`, `is_private` and `is_link_local`.
abbrev pub is_reserved_v4 : List ℕ → Bool
is_reserved_v4 o =
    octet 0 o == 127
    || (octet 0 o == 10
        || octet 0 o == 172 && leb 16 (octet 1 o) && leb (octet 1 o) 31
        || octet 0 o == 192 && octet 1 o == 168)
    || octet 0 o == 169 && octet 1 o == 254

abbrev pub unspecified_v6 : List ℕ
unspecified_v6 = 0 ∷ 0 ∷ 0 ∷ 0 ∷ 0 ∷ 0 ∷ 0 ∷ 0 ∷ 0 ∷ 0 ∷ 0 ∷ 0 ∷ 0 ∷ 0 ∷ 0 ∷ 0 ∷ []

abbrev pub loopback_v6 : List ℕ
loopback_v6 = 0 ∷ 0 ∷ 0 ∷ 0 ∷ 0 ∷ 0 ∷ 0 ∷ 0 ∷ 0 ∷ 0 ∷ 0 ∷ 0 ∷ 0 ∷ 0 ∷ 0 ∷ 1 ∷ []

-- Loopback, unspecified, multicast, `fe80::/10`, `fc00::/8` and `fd00::/8`; for an octet,
-- `(b & 0xc0) == 0x80` says that `b / 64` is 2.
abbrev pub is_reserved_v6 : List ℕ → Bool
is_reserved_v6 o =
    (name_beq o loopback_v6 || name_beq o unspecified_v6 || octet 0 o == 255)
    || octet 0 o == 254 && octet 1 o / 64 == 2
    || (octet 0 o == 252 || octet 0 o == 253)

unfoldable pub is_public : IpAddr → Bool
is_public (v4 o) = not (is_reserved_v4 o)
is_public (v6 o) = not (is_reserved_v6 o)

unfoldable pub get_public_ips : List IpAddr → List IpAddr
get_public_ips interfaces = select is_public interfaces

abbrev pub is_ipv4 : IpAddr → Bool
is_ipv4 (v4 o) = true
is_ipv4 (v6 o) = false

abbrev pub is_ipv6 : IpAddr → Bool
is_ipv6 (v4 o) = false
is_ipv6 (v6 o) = true

abbrev pub first : {A : Type 0} → List A → Option A
first [] = none
first (x ∷ xs) = some x

abbrev pub is_none : {A : Type 0} → Option A → Bool
is_none none = true
is_none (some a) = false

unfoldable pub ip_beq : IpAddr → IpAddr → Bool
ip_beq (v4 a) (v4 b) = name_beq a b
ip_beq (v6 a) (v6 b) = name_beq a b
ip_beq _ _ = false

abbrev pub same_address : Option IpAddr → Option IpAddr → Bool
same_address none none = true
same_address none (some b) = false
same_address (some a) none = false
same_address (some a) (some b) = ip_beq a b

-- Whether there was anything to clear, with the network after it.
unfoldable pub clear_stale_public_addresses : NetworkConfig → NetworkConfig × Bool
clear_stale_public_addresses network =
    if is_none network.ipv4_address && is_none network.ipv6_address
    then (network, false)
    else (record network { ipv4_address = none; ipv6_address = none }, true)

-- The two branches that set the family flags and the addresses.
unfoldable pub set_addresses : Option IpAddr → Option IpAddr → NetworkConfig → NetworkConfig
set_addresses ipv4 ipv6 network = record network {
  ipv4_enabled = not (is_none ipv4);
  ipv4_address = ipv4;
  ipv6_enabled = not (is_none ipv6);
  ipv6_address = ipv6;
}

-- The network of the configuration after the update, and whether the file is saved.
unfoldable pub update_network : List IpAddr → NetworkConfig → NetworkConfig × Bool
update_network public_ips config =
    let ipv4 = first (select is_ipv4 public_ips) in
    let ipv6 = first (select is_ipv6 public_ips) in
    let network = record config { has_public_address = not (is_none (first public_ips)) } in
    if is_none ipv4 && is_none ipv6
    then clear_stale_public_addresses network
    else if same_address network.ipv4_address ipv4 && same_address network.ipv6_address ipv6
    then (network, false)
    else (set_addresses ipv4 ipv6 network, true)

unfoldable pub update_config_with_public_ip : List IpAddr → NetworkConfig → NetworkConfig × Bool
update_config_with_public_ip interfaces network = update_network (get_public_ips interfaces) network
