-- ===== src/Sidecar/Message.antt =====
-- `SidecarError` and `Message`, with the constructors in the order of the source.
use nexus_net.Base.{ℕ, Bool, Option, none, some, List, Name}

pub record SidecarError : Type 0 where
  pub code : Name
  pub message : Name

abbrev pub Uuid : Type 0
Uuid = List ℕ

pub data Message : Type 0 where
  hello : ℕ → Message
  request : Uuid → Name → List ℕ → Message
  reply : Uuid → Bool → Option (List ℕ) → Option SidecarError → Message
  list_services : Uuid → Message
  discover_providers : Uuid → Name → Message
  query_public_ip whoami reconnect_bootstrap reannounce_services reload_config : Uuid → Message
  refresh_cache relay_status pq_status auth_status : Uuid → Message
  query_key : Uuid → Name → Message
  add_key : Uuid → Name → Option (List ℕ) → Bool → Message
  remove_key : Uuid → Name → Bool → Bool → Message
  service_request : Uuid → Name → List ℕ → Message
  service_request_to : Uuid → Name → Name → List ℕ → Message

-- `Message::id`
unfoldable pub id : Message → Option Uuid
id (hello version) = none
id (request u service payload) = some u
id (reply u ok' result error) = some u
id (list_services u) = some u
id (discover_providers u service) = some u
id (query_public_ip u) = some u
id (whoami u) = some u
id (reconnect_bootstrap u) = some u
id (reannounce_services u) = some u
id (reload_config u) = some u
id (refresh_cache u) = some u
id (relay_status u) = some u
id (pq_status u) = some u
id (auth_status u) = some u
id (query_key u key) = some u
id (add_key u key value providing) = some u
id (remove_key u key providing record') = some u
id (service_request u service payload) = some u
id (service_request_to u service peer payload) = some u
