-- ===== src/Registry/Commands.antt =====
-- `RegistryState::mark_types_dirty`, `replace_backend_ready` and `handle`.
use nexus_net.Base.HashSet
use nexus_net.Base.HashMap
use nexus_net.Base.{
  ℕ, ◌+◌, ◌%◌, ◌^◌, Bool, true, false, not, none, some, List, [], ◌++◌, foldl, Name, name_eq,
  if◌then◌else◌, select,
}
use nexus_net.Registry.State.{
  RegistryState, ServiceCommand, bootstrap_completed, tick, reannounce, refresh_types, reset,
  relay_state_changed, ReconcileState, idle, relay_ready, withdraw_grace,
}

abbrev pub is_idle : ReconcileState → Bool
is_idle idle = true
is_idle _ = false

-- A test on Booleans for `was_ready == now_ready`.
abbrev pub same : Bool → Bool → Bool
same true b = b
same false b = not b

unfoldable pub mark_types_dirty : ℕ → RegistryState → RegistryState
mark_types_dirty now s =
    if is_idle s.reconcile
    then record s { reconcile_dirty = true; next_types_sync = some now }
    else record s { reconcile_dirty = true }

-- `a.difference(&b)`
abbrev pub difference : List Name → List Name → List Name
difference a b = select (λ k. not (HashSet.contains b k)) a

-- One round of the first loop of `replace_backend_ready`: a service that became ready.
unfoldable pub became_ready : RegistryState → Name → RegistryState
became_ready s service = record s {
  withdraw_deadline = HashMap.remove service s.withdraw_deadline;
  announce_failures = HashMap.remove service s.announce_failures;
  announce_retry_at = HashMap.remove service s.announce_retry_at;
}

-- One round of the second loop: a service that is no longer ready.
unfoldable pub became_unready : ℕ → RegistryState → Name → RegistryState
became_unready now s service = record s {
  announce_retry_at = HashMap.remove service s.announce_retry_at;
  withdraw_deadline =
      if HashSet.contains s.announced service
      then HashMap.or_insert service (now + withdraw_grace) s.withdraw_deadline
      else s.withdraw_deadline;
}

unfoldable pub replace_backend_ready : List Name → ℕ → RegistryState → RegistryState
replace_backend_ready ready now s =
    let previous = s.backend_ready in
    let entered =
      foldl became_ready (record s { backend_ready = ready }) (difference ready previous) in
    foldl (became_unready now) entered (difference previous ready)

-- `Reset`; `wrapping_add` on `u64`.
unfoldable pub reset_state : RegistryState → RegistryState
reset_state s = record s {
  generation = (s.generation + 1) % 2 ^ 64;
  bootstrapped = false;
  active_relays = 0;
  announced = [];
  withdraw_deadline = [];
  relay_withdraw = [];
  relay_withdraw_retry_at = [];
  announce_inflight = [];
  withdraw_inflight = [];
  announce_failures = [];
  announce_retry_at = [];
  reconcile = idle;
  reconcile_dirty = false;
  next_types_sync = none;
  pending_types_write = none;
}

-- The rest of `RelayStateChanged`, once a change of readiness is seen.
unfoldable pub relay_gained : RegistryState → RegistryState
relay_gained s = record s {
  announced = [];
  announce_failures = [];
  announce_retry_at = [];
  relay_withdraw = [];
  relay_withdraw_retry_at = [];
}

unfoldable pub relay_lost : RegistryState → RegistryState
relay_lost s = record s {
  relay_withdraw = HashSet.extend s.relay_withdraw (s.announced ++ s.announce_inflight);
  announce_retry_at = [];
}

unfoldable pub relay_changed : Bool → ℕ → RegistryState → RegistryState
relay_changed need active s =
    let t = record s { need_relay = need; active_relays = active } in
    if same (relay_ready s) (relay_ready t)
    then t
    else if relay_ready t
    then relay_gained t
    else relay_lost t

unfoldable pub handle : ServiceCommand → ℕ → RegistryState → RegistryState
handle bootstrap_completed now s =
    mark_types_dirty now (record s { bootstrapped = true; announced = []; announce_retry_at = [] })
handle tick now s = s
handle reannounce now s = mark_types_dirty now (record s { announced = []; announce_retry_at = [] })
handle refresh_types now s = mark_types_dirty now s
handle (relay_state_changed need active) now s = relay_changed need active s
handle reset now s = reset_state s
