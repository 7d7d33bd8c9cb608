-- ===== src/Registry/Apply.antt =====
-- `RegistryState::apply`: what the result of a DHT job does to the state; `snapshot`.
use nexus_net.Base.HashSet
use nexus_net.Base.HashMap
use nexus_net.Base.BTreeSet
use nexus_net.Base.{
  ℕ, suc, ◌+◌, ◌^◌, ◌-◌, min, ◌==◌, Bool, true, false, not, ◌||◌, ◌&&◌, Option, none, some, List,
  foldl, Name, Result, ok, err, is_ok, name_eq, if◌then◌else◌, length,
}
use nexus_net.Registry.State.{
  RegistryState, JobResult, announced, withdrawn, types_read, types_written, ReconcileState, idle,
  reading, ready_to_write, writing, relay_ready, retry_delay, announce_retry_initial,
  reconcile_retry, from_secs,
}
use nexus_net.Registry.Commands.{mark_types_dirty}
use nexus_net.Registry.Types.{Json, encode_types_limited, merge_type_set}

-- What `apply` reads of the configuration, by its accessors.
pub record SyncConfig : Type 0 where
  pub types_sync_interval : ℕ
  pub max_record_bytes : ℕ

abbrev pub sync_interval : SyncConfig → ℕ
sync_interval c = from_secs c.types_sync_interval

abbrev pub is_reading : ReconcileState → Bool
is_reading reading = true
is_reading _ = false

abbrev pub is_writing : ReconcileState → Bool
is_writing writing = true
is_writing _ = false

unfoldable pub announce_succeeded : Name → ℕ → RegistryState → RegistryState
announce_succeeded service now s =
    let t = mark_types_dirty now (record s {
      announce_failures = HashMap.remove service s.announce_failures;
      announce_retry_at = HashMap.remove service s.announce_retry_at;
      announced = HashSet.insert service s.announced;
    }) in
    if not (relay_ready t)
    then record t { relay_withdraw = HashSet.insert service t.relay_withdraw }
    else if HashSet.contains t.backend_ready service && t.bootstrapped
    then t
    else record t { withdraw_deadline = HashMap.insert service now t.withdraw_deadline }

-- `entry(service).or_insert(0)` and `saturating_add(1)` on `u32`.
unfoldable pub next_failures : Option ℕ → ℕ
next_failures none = 1
next_failures (some count) = min (suc count) (2 ^ 32 - 1)

-- The failure count and the time of the next attempt.
unfoldable pub schedule_retry : Name → ℕ → RegistryState → RegistryState
schedule_retry service now s =
    let failures = next_failures (HashMap.get s.announce_failures service) in
    record s {
      announce_failures = HashMap.insert service failures s.announce_failures;
      announce_retry_at = HashMap.insert service (now + retry_delay failures) s.announce_retry_at;
    }

unfoldable pub announce_failed : Name → ℕ → RegistryState → RegistryState
unfolding schedule_retry
announce_failed service now s =
    if HashSet.contains s.backend_ready service && s.bootstrapped
    then schedule_retry service now s
    else s

unfoldable pub apply_announced :
    ℕ → Name → Result Name (Unit {0}) → ℕ → RegistryState → RegistryState
apply_announced generation service result now s =
    let t = record s { announce_inflight = HashSet.remove service s.announce_inflight } in
    if not (generation == s.generation) then t else elim result [
      | ok _ ↦ announce_succeeded service now t
      | err _ ↦ announce_failed service now t
    ]

unfoldable pub withdraw_succeeded : Name → ℕ → RegistryState → RegistryState
withdraw_succeeded service now s =
    let t = record s {
      announced = HashSet.remove service s.announced;
      relay_withdraw = HashSet.remove service s.relay_withdraw;
      relay_withdraw_retry_at = HashMap.remove service s.relay_withdraw_retry_at;
    } in
    if HashSet.contains t.backend_ready service && relay_ready t
    then record t { announce_retry_at = HashMap.insert service now t.announce_retry_at }
    else t

unfoldable pub withdraw_failed : Name → ℕ → RegistryState → RegistryState
withdraw_failed service now s =
    if HashSet.contains s.relay_withdraw service
    then record s {
      relay_withdraw_retry_at =
          HashMap.insert service (now + announce_retry_initial) s.relay_withdraw_retry_at;
    }
    else if HashSet.contains s.backend_ready service
    then record s { announce_retry_at = HashMap.insert service now s.announce_retry_at }
    else record s {
      withdraw_deadline = HashMap.insert service (now + announce_retry_initial) s.withdraw_deadline;
    }

unfoldable pub apply_withdrawn :
    ℕ → Name → Result Name (Unit {0}) → ℕ → RegistryState → RegistryState
apply_withdrawn generation service result now s =
    let t = record s { withdraw_inflight = HashSet.remove service s.withdraw_inflight } in
    if not (generation == s.generation) then t else elim result [
      | ok _ ↦ withdraw_succeeded service now t
      | err _ ↦ withdraw_failed service now t
    ]

-- Back to `Idle` with the next round at `at`, or at once if the index was marked in the meantime.
unfoldable pub finish_reconcile : ℕ → ℕ → RegistryState → RegistryState
finish_reconcile at now s =
    let t = record s { reconcile = idle; pending_types_write = none; next_types_sync = some at } in
    if s.reconcile_dirty
    then record t { reconcile_dirty = false; next_types_sync = some now }
    else t

module _ (json : Json) (c : SyncConfig) where
  -- The outcome of `encode_types_limited`. An encoding error leaves `reconcile_dirty` as it is.
  unfoldable pub apply_encoded : Result Name (List ℕ × ℕ) → ℕ → RegistryState → RegistryState
  apply_encoded (ok (value, included)) now s = record s {
    pending_types_write = some value;
    reconcile = ready_to_write;
    reconcile_dirty = false;
  }
  apply_encoded (err error) now s = record s {
    reconcile = idle;
    pending_types_write = none;
    next_types_sync = some (now + reconcile_retry);
  }

  unfoldable pub types_found : List Name → ℕ → RegistryState → RegistryState
  types_found network_types now s =
      let network_set = BTreeSet.collect network_types in
      let known = merge_type_set (merge_type_set s.known_types network_types) s.announced in
      let t = record s { known_types = known } in
      if length known == 0 || BTreeSet.equal known network_set
      then finish_reconcile (now + sync_interval c) now t
      else apply_encoded (encode_types_limited json known c.max_record_bytes) now t

  unfoldable pub apply_types_read : ℕ → Result Name (List Name) → ℕ → RegistryState → RegistryState
  apply_types_read generation result now s =
      if not (generation == s.generation) || not (is_reading s.reconcile) then s else elim result [
        | ok network_types ↦ types_found network_types now s
        | err _ ↦ finish_reconcile (now + reconcile_retry) now s
      ]

  unfoldable pub apply_types_written :
      ℕ → Result Name (Unit {0}) → ℕ → RegistryState → RegistryState
  apply_types_written generation result now s =
      if not (generation == s.generation) || not (is_writing s.reconcile)
      then s
      else finish_reconcile (now + (if is_ok result then sync_interval c else reconcile_retry)) now
          s

  unfoldable pub apply : JobResult → ℕ → RegistryState → RegistryState
  apply (announced generation service result) now s =
      apply_announced generation service result now s
  apply (withdrawn generation service result) now s =
      apply_withdrawn generation service result now s
  apply (types_read generation result) now s = apply_types_read generation result now s
  apply (types_written generation result) now s = apply_types_written generation result now s

-- `ServiceSnapshot`
pub record ServiceSnapshot : Type 0 where
  pub types : List Name
  pub announced : List Name
  pub backend_ready : List Name
  pub bootstrapped : Bool

unfoldable pub snapshot : RegistryState → ServiceSnapshot
snapshot s = record {
  types = foldl (λ t k. BTreeSet.insert k t) s.known_types s.announced;
  announced = BTreeSet.collect s.announced;
  backend_ready = BTreeSet.collect s.backend_ready;
  bootstrapped = s.bootstrapped;
}
