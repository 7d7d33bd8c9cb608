-- ===== src/Command/Keys.antt =====
-- src/controller/command.rs: `is_writable_key`, `can_run_in_dht_worker`, `check_compat_record_size` and
-- small results.
use nexus_net.Base.{
  ℕ, ◌||◌, not, Bool, true, false, List, [], ◌∷◌, ◌++◌, Name, name_beq, bytes, Result, ok, err,
  if◌then◌else◌, ltb,
}
use nexus_net.Sidecar.Message.{
  Message, query_key, discover_providers, service_request, service_request_to, add_key,
}
use nexus_net.Dispatcher.Types.{Response}
use nexus_net.Swarm.Peers.{starts_with}
use nexus_net.Swarm.Requests.{digits}

unfoldable pub is_writable_key : Name → Bool
is_writable_key key =
    if name_beq key (bytes "/oahd/service/types") || name_beq key (bytes "/oahd/bootstrap")
    then false
    else starts_with key (bytes "/oahd/auth/") || starts_with key (bytes "/oahd/service/")

unfoldable pub can_run_in_dht_worker : Message → Bool
can_run_in_dht_worker (query_key u key) = true
can_run_in_dht_worker (discover_providers u service) = true
can_run_in_dht_worker (service_request u service payload) = true
can_run_in_dht_worker (service_request_to u service peer payload) = true
can_run_in_dht_worker (add_key u key value providing) = not providing
can_run_in_dht_worker _ = false

unfoldable pub check_compat_record_size : ℕ → ℕ → Result Name (Unit {0})
check_compat_record_size len max_bytes =
    if ltb max_bytes len
    then err (
        bytes "record exceeds compat.max_record_bytes ("
        ++ digits 20 max_bytes
        ++ bytes " bytes); raise it after all nodes support larger packets")
    else ok tt

-- `lossy` is `String::from_utf8_lossy`.
unfoldable pub response_payload : (List ℕ → Name) → Response → Result Name (List ℕ)
response_payload lossy resp = if resp.success then ok resp.data' else elim resp.data' [
  | [] ↦ err (bytes "remote service failed")
  | b ∷ rest ↦ err (lossy (b ∷ rest))
]

unfoldable pub reachability_label : Bool → ℕ → Name
reachability_label has_public_address active_relays =
    if has_public_address
    then bytes "public"
    else if ltb 0 active_relays
    then bytes "relay"
    else bytes "none"
