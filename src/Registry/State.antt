-- ===== src/Registry/State.antt =====
-- `RegistryState`, `ServiceCommand`, `JobSpec`, `JobResult`, `ReconcileState` and the constants.
use nexus_net.Base.{
  ℕ, ◌*◌, ◌-◌, ◌^◌, min, Bool, false, not, ◌||◌, Option, none, List, [], ◌++◌, Name, bytes, Result,
  ltb,
}

abbrev pub from_secs : ℕ → ℕ
from_secs n = n * 10 ^ 9

abbrev pub withdraw_grace : ℕ
withdraw_grace = from_secs 3

abbrev pub types_key : Name
types_key = bytes "/oahd/service/types"

abbrev pub max_types : ℕ
max_types = 4096

abbrev pub announce_retry_initial : ℕ
announce_retry_initial = from_secs 5

abbrev pub announce_retry_max : ℕ
announce_retry_max = from_secs 60

abbrev pub reconcile_retry : ℕ
reconcile_retry = from_secs 30

unfoldable pub service_key : Name → Name
service_key name = bytes "/oahd/service/" ++ name

pub data ServiceCommand : Type 0 where
  bootstrap_completed tick reannounce refresh_types reset : ServiceCommand
  relay_state_changed : Bool → ℕ → ServiceCommand

pub data JobSpec : Type 0 where
  announce : ℕ → Name → Name → JobSpec
  withdraw : ℕ → Name → Name → JobSpec
  read_types : ℕ → JobSpec
  write_types : ℕ → List ℕ → JobSpec

-- The error of a job is a text.
pub data JobResult : Type 0 where
  announced : ℕ → Name → Result Name (Unit {0}) → JobResult
  withdrawn : ℕ → Name → Result Name (Unit {0}) → JobResult
  types_read : ℕ → Result Name (List Name) → JobResult
  types_written : ℕ → Result Name (Unit {0}) → JobResult

pub data ReconcileState : Type 0 where
  idle reading ready_to_write writing : ReconcileState

-- The state, without `config`: the configuration that a call reads is an argument of the call.
pub record RegistryState : Type 0 where
  pub bootstrapped : Bool
  pub need_relay : Bool
  pub active_relays : ℕ
  pub backend_ready : List Name
  pub announced : List Name
  pub withdraw_deadline : List (Name × ℕ)
  pub relay_withdraw : List Name
  pub relay_withdraw_retry_at : List (Name × ℕ)
  pub announce_inflight : List Name
  pub withdraw_inflight : List Name
  pub announce_failures : List (Name × ℕ)
  pub announce_retry_at : List (Name × ℕ)
  pub known_types : List Name
  pub reconcile : ReconcileState
  pub reconcile_dirty : Bool
  pub next_types_sync : Option ℕ
  pub pending_types_write : Option (List ℕ)
  pub generation : ℕ

abbrev pub new : RegistryState
new = record {
  bootstrapped = false;
  need_relay = false;
  active_relays = 0;
  backend_ready = [];
  announced = [];
  withdraw_deadline = [];
  relay_withdraw = [];
  relay_withdraw_retry_at = [];
  announce_inflight = [];
  withdraw_inflight = [];
  announce_failures = [];
  announce_retry_at = [];
  known_types = [];
  reconcile = idle;
  reconcile_dirty = false;
  next_types_sync = none;
  pending_types_write = none;
  generation = 0;
}

abbrev pub relay_ready : RegistryState → Bool
relay_ready s = not s.need_relay || ltb 0 s.active_relays

-- `saturating_sub(1).min(4)`, `5 s << shift`, at most 60 s.
unfoldable pub retry_delay : ℕ → ℕ
retry_delay failures = min (announce_retry_initial * 2 ^ min (failures - 1) 4) announce_retry_max
