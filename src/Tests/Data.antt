-- ===== src/Tests/Data.antt =====
-- Concrete libraries and data for the tests.
use nexus_net.Base.{
  ℕ, suc, zero, ◌≤◌, refl, Bool, true, false, Option, none, some, List, [], ◌∷◌, ◌++◌, Name, bytes,
  ok, length, take, arith, length-append, ◌==◌,
}
use nexus_net.Config.Schema.{LocalServiceEntry, NodeConfig, default_config}
use nexus_net.Registry.State.{RegistryState, new}
use nexus_net.Registry.Types.{Json}
use nexus_net.Registry.Types.Longest.{Encodes, Grows}
use nexus_net.Registry.Actor.{ActorConfig}
use nexus_net.Auth.Cose.{CoseLib}
use nexus_net.Auth.Documents.{AuthLib, AuthNetwork, ServiceEntry, IndexDoc, WhitelistDoc}

abbrev pub web : Name
web = bytes "web"

abbrev pub chat : Name
chat = bytes "chat"

abbrev pub service : Name → LocalServiceEntry
service name = record { name = name; port = 8080; require_auth = true }

abbrev pub local_two : List LocalServiceEntry
local_two = service web ∷ service chat ∷ []

-- Each string with its length before it.
abbrev pub flat : List Name → List ℕ
flat [] = []
flat (n ∷ rest) = length n ∷ (n ++ flat rest)

abbrev pub flat_json : Json
flat_json = record { to_vec = λ l. ok (flat l); from_slice = λ v. ok (v ∷ []) }

pub flat-Encodes : Encodes flat_json
flat-Encodes list = (flat list, refl)

length-flat-le :
    (list : List Name) (i j : ℕ) → i ≤ j → length (flat (take i list)) ≤ length (flat (take j list))
length-flat-le list zero j h = omega arith
length-flat-le list (suc i) zero h = absurd (omega arith)
length-flat-le [] (suc i) (suc j) h = omega arith
length-flat-le (x ∷ list) (suc i) (suc j) h = omega (
  arith,
  length-flat-le list i j,
  length-append x (flat (take i list)),
  length-append x (flat (take j list)),
)

pub flat-Grows : (list : List Name) → Grows flat_json list
flat-Grows list i j h = length-flat-le list i j h

-- A bootstrapped registry with two services whose backends are ready.
abbrev pub two_ready : RegistryState
two_ready = record new { bootstrapped = true; backend_ready = web ∷ chat ∷ [] }

abbrev pub actor_config : ActorConfig
actor_config = record {
  sync = record { types_sync_interval = 300; max_record_bytes = 1000 };
  local_services = local_two;
  max_inflight = 4;
}

-- A toy signature scheme: an envelope is the key before the payload.
abbrev pub signed_by : ℕ → List ℕ → Bool
signed_by key [] = false
signed_by key (k ∷ payload) = k == key

abbrev pub content : List ℕ → Option (List ℕ)
content [] = none
content (k ∷ payload) = some payload

abbrev pub toy_cose : CoseLib ℕ ℕ (List ℕ)
toy_cose = record {
  from_slice = λ v. some v;
  is_eddsa = λ s. true;
  verifies = λ key aad s. signed_by key s;
  payload = content;
  sign = λ key aad payload. some (key ∷ payload);
  to_vec = λ s. some s;
}

abbrev pub digest : List ℕ
digest =
    1 ∷ 2 ∷ 3 ∷ 4 ∷ 5 ∷ 6 ∷ 7 ∷ 8 ∷ 1 ∷ 2 ∷ 3 ∷ 4 ∷ 5 ∷ 6 ∷ 7 ∷ 8 ∷ 1 ∷ 2 ∷ 3 ∷ 4 ∷ 5 ∷ 6 ∷ 7 ∷ 8
    ∷ 1 ∷ 2 ∷ 3 ∷ 4 ∷ 5 ∷ 6 ∷ 7 ∷ 8 ∷ []

abbrev pub web_entry : ServiceEntry
web_entry = record { name = web; hash = digest; length_of = 2 }

-- The payload of a document is its version.
abbrev pub index_of : List ℕ → Option IndexDoc
index_of [] = none
index_of (v ∷ rest) = some (record { version = v; expires_at = 100; services = web_entry ∷ [] })

abbrev pub whitelist_of : List ℕ → Option WhitelistDoc
whitelist_of [] = none
whitelist_of (v ∷ rest) = some (record { version = v; members = bytes "peer" ∷ [] })

abbrev pub toy_auth : AuthLib ℕ ℕ (List ℕ)
toy_auth = record {
  cose_lib = toy_cose;
  encode_index = λ d. some (d.version ∷ []);
  decode_index = index_of;
  encode_whitelist = λ d. some (d.version ∷ []);
  decode_whitelist = whitelist_of;
  sha256 = λ v. digest;
  base64url = λ v. bytes "hash";
  decode_key = λ b. some 7;
}

abbrev pub toy_net : AuthNetwork ℕ
toy_net = record { net_hash = bytes "hash"; authority = 7 }

abbrev pub node_config : NodeConfig ℕ
node_config = default_config (bytes "node") (bytes "a node")
