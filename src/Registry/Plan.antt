-- ===== src/Registry/Plan.antt =====
-- `RegistryState::plan`: which DHT jobs to start, within the free slots. A round of a loop that has
-- no slot left changes nothing, which is what its `break` comes to.
use nexus_net.Base.HashSet
use nexus_net.Base.HashMap
use nexus_net.Base.BTreeSet
use nexus_net.Base.{
  ℕ, ◌-◌, ◌==◌, leb, ltb, Bool, true, false, not, ◌||◌, ◌&&◌, Option, none, some, List, [], ◌∷◌,
  ◌++◌, foldl, map, Name, name_eq, if◌then◌else◌, select,
}
use nexus_net.Config.Schema.{LocalServiceEntry}
use nexus_net.Auth.Naming.{is_valid_service_name}
use nexus_net.Registry.State.{
  RegistryState, JobSpec, announce, withdraw, read_types, write_types, ReconcileState, idle,
  reading, ready_to_write, writing, relay_ready, service_key,
}

-- The local variables of `plan`, with the state that it mutates.
pub record Planning : Type 0 where
  pub state : RegistryState
  pub slots : ℕ
  pub jobs : List JobSpec

-- `map.get(k).is_none_or(|at| at <= now)` and `map.get(k).is_some_and(|at| at > now)`
abbrev pub is_none_or_due : ℕ → Option ℕ → Bool
is_none_or_due now none = true
is_none_or_due now (some at) = leb at now

abbrev pub is_later : ℕ → Option ℕ → Bool
is_later now none = false
is_later now (some at) = ltb now at

abbrev pub deadline_passed : ℕ → RegistryState → Name × ℕ → Bool
deadline_passed now s (service, deadline) =
    leb deadline now && not (HashSet.contains s.backend_ready service)

abbrev pub relay_withdraw_due : ℕ → RegistryState → Name → Bool
relay_withdraw_due now s service =
    is_none_or_due now (HashMap.get s.relay_withdraw_retry_at service)

-- The services to withdraw, in order and without repetitions.
unfoldable pub withdrawals_due : ℕ → RegistryState → List Name
withdrawals_due now s = BTreeSet.dedup (
    BTreeSet.sort (
      map (λ e. e.0) (select (deadline_passed now s) s.withdraw_deadline)
      ++ select (relay_withdraw_due now s) s.relay_withdraw))

-- Whether a job for the service is in flight.
abbrev pub busy : RegistryState → Name → Bool
busy s service =
    HashSet.contains s.withdraw_inflight service || HashSet.contains s.announce_inflight service

unfoldable pub start_withdraw : Planning → Name → Planning
start_withdraw p service = record {
  state = record s {
    withdraw_deadline = HashMap.remove service s.withdraw_deadline;
    relay_withdraw_retry_at = HashMap.remove service s.relay_withdraw_retry_at;
    withdraw_inflight = HashSet.insert service s.withdraw_inflight;
  };
  slots = p.slots - 1;
  jobs = p.jobs ++ withdraw s.generation service (service_key service) ∷ [];
}
  where
    s : RegistryState
    s = p.state

unfoldable pub withdraw_round : Planning → Name → Planning
withdraw_round p service =
    if p.slots == 0 then p else if busy p.state service then p else start_withdraw p service

abbrev pub retry_due : ℕ → RegistryState → Name × ℕ → Bool
retry_due now s (service, at) =
    relay_ready s
    && leb at now
    && HashSet.contains s.backend_ready service
    && not (HashSet.contains s.announced service)
    && not (HashSet.contains s.relay_withdraw service)

unfoldable pub retries_due : ℕ → RegistryState → List Name
retries_due now s = BTreeSet.sort (map (λ e. e.0) (select (retry_due now s) s.announce_retry_at))

unfoldable pub start_announce : Planning → Name → Planning
start_announce p service = record {
  state = record s {
    announce_retry_at = HashMap.remove service s.announce_retry_at;
    announce_inflight = HashSet.insert service s.announce_inflight;
  };
  slots = p.slots - 1;
  jobs = p.jobs ++ announce s.generation service (service_key service) ∷ [];
}
  where
    s : RegistryState
    s = p.state

unfoldable pub retry_round : Planning → Name → Planning
retry_round p service =
    if p.slots == 0 then p else if busy p.state service then p else start_announce p service

unfoldable pub local_names : List LocalServiceEntry → List Name
local_names services =
    select is_valid_service_name (map (λ (e : LocalServiceEntry). e.name) services)

abbrev pub unwanted : Planning → Name → Bool
unwanted p service =
    not (HashSet.contains p.state.backend_ready service)
    || HashSet.contains p.state.announced service
    || busy p.state service

unfoldable pub local_round : ℕ → Planning → Name → Planning
local_round now p service =
    if p.slots == 0
    then p
    else if unwanted p service
    then p
    else if is_later now (HashMap.get p.state.announce_retry_at service)
    then p
    else start_announce p service

abbrev pub sync_due : ℕ → Option ℕ → Bool
sync_due now none = false
sync_due now (some at) = leb at now

-- The `match self.reconcile` that ends `plan`.
unfoldable pub reconcile_round : ℕ → ReconcileState → Planning → Planning
reconcile_round now idle p =
    if p.state.reconcile_dirty || sync_due now p.state.next_types_sync
    then record p {
      state = record (p.state) {
        next_types_sync = none;
        reconcile = reading;
        reconcile_dirty = false;
      };
      jobs = p.jobs ++ read_types p.state.generation ∷ [];
    }
    else p
reconcile_round now ready_to_write p = elim p.state.pending_types_write [
  | none ↦ record p { state = record (p.state) { reconcile = idle } }
  | some value ↦ record p {
    state = record (p.state) { pending_types_write = none; reconcile = writing };
    jobs = p.jobs ++ write_types p.state.generation value ∷ [];
  }
]
reconcile_round now reading p = p
reconcile_round now writing p = p

unfoldable pub plan_withdrawals : ℕ → Planning → Planning
plan_withdrawals now p = foldl withdraw_round p (withdrawals_due now p.state)

unfoldable pub plan_retries : ℕ → Planning → Planning
plan_retries now p = foldl retry_round p (retries_due now p.state)

unfoldable pub plan_local : List LocalServiceEntry → ℕ → Planning → Planning
plan_local services now p =
    if p.state.bootstrapped && relay_ready p.state && ltb 0 p.slots
    then foldl (local_round now) p (local_names services)
    else p

unfoldable pub plan_reconcile : ℕ → Planning → Planning
plan_reconcile now p = if ltb 0 p.slots then reconcile_round now p.state.reconcile p else p

-- `plan`, given `services.dispatcher.local_services` of the configuration.
unfoldable pub plan : List LocalServiceEntry → ℕ → ℕ → RegistryState → Planning
plan services now slots s = plan_reconcile now (
    plan_local services now
      (plan_retries now (plan_withdrawals now (record { state = s; slots = slots; jobs = [] }))))
