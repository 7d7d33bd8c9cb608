-- ===== src/Tests/Addr.antt =====
-- src/network/addr.rs at concrete inputs.
use nexus_net.Base.{◌≡◌, refl, List, [], ◌∷◌}
use nexus_net.Config.Schema.{IpAddr, v4, default_network}
use nexus_net.Addr.{is_public, get_public_ips, update_config_with_public_ip}
use nexus_net.Addr.Updated.{IsUpdated, IsPublic, update_config_addresses}

-- A loopback address, a private one and a public one.
abbrev interfaces : List IpAddr
interfaces = v4 (127 ∷ 0 ∷ 0 ∷ 1 ∷ []) ∷ v4 (172 ∷ 20 ∷ 0 ∷ 5 ∷ []) ∷ v4 (8 ∷ 8 ∷ 4 ∷ 4 ∷ []) ∷ []

one_public : get_public_ips interfaces ≡ v4 (8 ∷ 8 ∷ 4 ∷ 4 ∷ []) ∷ []
unfolding get_public_ips is_public
one_public = refl

update_config_addresses_example :
    IsUpdated
      (get_public_ips interfaces)
      (update_config_with_public_ip interfaces default_network).0
    × IsPublic (update_config_with_public_ip interfaces default_network).0.ipv4_address
    × IsPublic (update_config_with_public_ip interfaces default_network).0.ipv6_address
update_config_addresses_example = update_config_addresses interfaces default_network
