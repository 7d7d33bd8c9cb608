-- ===== src/Auth/Naming.antt =====
-- src/auth.rs: valid network and service names, and the DHT keys made of them.
use nexus_net.Base.{
  ℕ, Bool, not, ◌&&◌, ◌||◌, ◌∷◌, ◌++◌, Name, bytes, length, all, leb, ◌==◌, name_beq,
}

abbrev pub reserved_service : Name
reserved_service = bytes "service"

abbrev pub auth_prefix : Name
auth_prefix = bytes "/oahd/auth"

-- `u8::is_ascii_alphanumeric`
abbrev pub is_ascii_alphanumeric : ℕ → Bool
is_ascii_alphanumeric b =
    leb b'0' b && leb b b'9' || leb b'A' b && leb b b'Z' || leb b'a' b && leb b b'z'

abbrev pub is_name_byte : ℕ → Bool
is_name_byte b = is_ascii_alphanumeric b || b == b'_' || b == b'-'

abbrev pub is_empty : Name → Bool
is_empty s = length s == 0

unfoldable pub is_valid_network_name : Name → Bool
is_valid_network_name s = not (is_empty s) && leb (length s) 64 && all is_name_byte s

unfoldable pub is_valid_service_name : Name → Bool
is_valid_service_name s = is_valid_network_name s && not (name_beq s reserved_service)

-- `format!("{}/{}/{}", AUTH_PREFIX, net_hash, name)`
unfoldable pub key_path : Name → Name → Name
key_path net_hash name = auth_prefix ++ b'/' ∷ (net_hash ++ b'/' ∷ name)
