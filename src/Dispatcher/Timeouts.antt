-- ===== src/Dispatcher/Timeouts.antt =====
-- src/service_dispatcher.rs: `command_timeout`. A `Duration` is its nanoseconds; what saturates at
-- the largest one, 2^64 - 1 seconds and 999999999 nanoseconds, is written out.
use nexus_net.Base.{ℕ, ◌+◌, ◌-◌, ◌*◌, ◌^◌, min, max}
use nexus_net.Registry.State.{from_secs}
use nexus_net.Sidecar.Message.{
  Message, list_services, discover_providers, reannounce_services, query_key, add_key,
  service_request, service_request_to,
}

abbrev pub request_timeout : ℕ
request_timeout = from_secs 30

-- `Duration::MAX`
abbrev pub max_duration : ℕ
max_duration = from_secs (2 ^ 64) - 1

abbrev pub saturating_add : ℕ → ℕ → ℕ
saturating_add a b = min (a + b) max_duration

abbrev pub saturating_mul : ℕ → ℕ → ℕ
saturating_mul a b = min (a * b) max_duration

-- What the command may need, by its kind.
unfoldable pub required : Message → ℕ → ℕ
required (service_request u service payload) kad =
    saturating_add kad (saturating_mul request_timeout 2)
required (service_request_to u service peer payload) kad =
    saturating_add kad (saturating_mul request_timeout 2)
required (query_key u key) kad = saturating_add kad kad
required (list_services u) kad = kad
required (discover_providers u service) kad = kad
required (reannounce_services u) kad = kad
required (add_key u key value providing) kad = saturating_add kad kad
required _ kad = 0

unfoldable pub command_timeout : Message → ℕ → ℕ → ℕ
command_timeout msg base kad = saturating_add (max (required msg kad) base) (from_secs 5)
