-- ===== src/Registry/Synced.antt =====
-- The state machine that reconciles the type index: `reconcile`, `pending_types_write`,
-- `reconcile_dirty` and `next_types_sync`.
use nexus_net.Base.{
  ℕ, ◌+◌, ◌≡◌, refl, Bool, true, false, ◌||◌, ◌&&◌, List, Name, name_eq, arith, Result, ok, err,
  ◌==◌, is_some, length,
}
use nexus_net.Base.BTreeSet
use nexus_net.Config.Schema.{LocalServiceEntry}
use nexus_net.Registry.State.{
  RegistryState, ServiceCommand, bootstrap_completed, tick, reannounce, refresh_types, reset,
  relay_state_changed, new, JobResult, announced, withdrawn, types_read, types_written,
  ReconcileState, ready_to_write, reconcile_retry,
}
use nexus_net.Registry.Commands.{
  handle, mark_types_dirty, relay_changed, reset_state, relay_gained, relay_lost, is_idle,
  replace_backend_ready,
}
use nexus_net.Registry.Plan.{
  Planning, plan, start_withdraw, withdraw_round, start_announce, retry_round, local_round,
  reconcile_round,
}
use nexus_net.Registry.PlanRule.{plan_inv, when_inv}
use nexus_net.Registry.Types.{Json, merge_type_set, encode_types_limited}
use nexus_net.Registry.Apply.{
  SyncConfig, sync_interval, apply, apply_announced, apply_withdrawn, announce_succeeded,
  announce_failed, withdraw_succeeded, withdraw_failed, apply_types_read, apply_types_written,
  finish_reconcile, types_found, apply_encoded,
}
use nexus_net.Registry.Frame.{replace_backend_ready-Keeps}
use nexus_net.Registry.Scheduled.{◌implies◌}

abbrev pub is_ready_to_write : ReconcileState → Bool
is_ready_to_write ready_to_write = true
is_ready_to_write _ = false

pub record IsSynced (s : RegistryState) : Type 0 where
  pub pending : is_some s.pending_types_write ≡ is_ready_to_write s.reconcile
  pub due :
      (s.bootstrapped && is_idle s.reconcile implies s.reconcile_dirty || is_some s.next_types_sync)
      ≡ true

pub new-IsSynced : IsSynced new
new-IsSynced = record { pending = refl; due = refl }

pub handle-IsSynced :
    (c : ServiceCommand) (now : ℕ) (s : RegistryState) → IsSynced s → IsSynced (handle c now s)
unfolding handle mark_types_dirty relay_changed reset_state relay_gained relay_lost
handle-IsSynced bootstrap_completed now s h = ground arith
handle-IsSynced tick now s h = h
handle-IsSynced reannounce now s h = ground arith
handle-IsSynced refresh_types now s h = ground arith
handle-IsSynced (relay_state_changed need active) now s h = ground arith
handle-IsSynced reset now s h = ground arith

pub replace_backend_ready-IsSynced :
    (ready : List Name) (now : ℕ) (s : RegistryState)
    → IsSynced s
    → IsSynced (replace_backend_ready ready now s)
replace_backend_ready-IsSynced ready now s h =
    ground (arith, replace_backend_ready-Keeps ready now s)

withdraw_round-IsSynced :
    (p : Planning) (k : Name) → IsSynced p.state → IsSynced (withdraw_round p k).state
unfolding withdraw_round start_withdraw
withdraw_round-IsSynced p k h = ground arith

retry_round-IsSynced :
    (p : Planning) (k : Name) → IsSynced p.state → IsSynced (retry_round p k).state
unfolding retry_round start_announce
retry_round-IsSynced p k h = ground arith

local_round-IsSynced :
    (now : ℕ) (p : Planning) (k : Name) → IsSynced p.state → IsSynced (local_round now p k).state
unfolding local_round start_announce
local_round-IsSynced now p k h = ground arith

reconcile_round-IsSynced :
    (now : ℕ) (p : Planning)
    → IsSynced p.state
    → IsSynced (reconcile_round now p.state.reconcile p).state
unfolding reconcile_round
reconcile_round-IsSynced now p h = ground arith

pub plan-IsSynced :
    (services : List LocalServiceEntry) (now slots : ℕ) (s : RegistryState)
    → IsSynced s
    → IsSynced (plan services now slots s).state
plan-IsSynced services now slots s h =
    plan_inv (λ p. IsSynced p.state) services now withdraw_round-IsSynced retry_round-IsSynced
      (local_round-IsSynced now) (reconcile_round-IsSynced now) slots s h

apply_announced-IsSynced :
    (g : ℕ) (n : Name) (r : Result Name (Unit {0})) (now : ℕ) (s : RegistryState)
    → IsSynced s
    → IsSynced (apply_announced g n r now s)
unfolding apply_announced announce_succeeded announce_failed mark_types_dirty
apply_announced-IsSynced g n (ok _) now s h = ground arith
apply_announced-IsSynced g n (err _) now s h = ground arith

apply_withdrawn-IsSynced :
    (g : ℕ) (n : Name) (r : Result Name (Unit {0})) (now : ℕ) (s : RegistryState)
    → IsSynced s
    → IsSynced (apply_withdrawn g n r now s)
unfolding apply_withdrawn withdraw_succeeded withdraw_failed
apply_withdrawn-IsSynced g n (ok _) now s h = ground arith
apply_withdrawn-IsSynced g n (err _) now s h = ground arith

finish_reconcile-IsSynced : (at now : ℕ) (s : RegistryState) → IsSynced (finish_reconcile at now s)
unfolding finish_reconcile
finish_reconcile-IsSynced at now s = ground arith

module _ (json : Json) (c : SyncConfig) where
  apply_encoded-IsSynced :
      (r : Result Name (List ℕ × ℕ)) (now : ℕ) (s : RegistryState)
      → IsSynced (apply_encoded json c r now s)
  unfolding apply_encoded
  apply_encoded-IsSynced (ok _) now s = ground arith
  apply_encoded-IsSynced (err _) now s = ground arith

  types_found-IsSynced :
      (l : List Name) (now : ℕ) (s : RegistryState) → IsSynced (types_found json c l now s)
  unfolding types_found
  types_found-IsSynced l now s =
      let known = merge_type_set (merge_type_set s.known_types l) s.announced in
      let t = record s { known_types = known } in
      when_inv IsSynced (length known == 0 || BTreeSet.equal known (BTreeSet.collect l)) _ _
        (finish_reconcile-IsSynced (now + sync_interval c) now t)
        (apply_encoded-IsSynced (encode_types_limited json known c.max_record_bytes) now t)

  pub apply-IsSynced :
      (r : JobResult) (now : ℕ) (s : RegistryState) → IsSynced s → IsSynced (apply json c r now s)
  unfolding apply apply_types_read apply_types_written
  apply-IsSynced (announced g n r) now s h = apply_announced-IsSynced g n r now s h
  apply-IsSynced (withdrawn g n r) now s h = apply_withdrawn-IsSynced g n r now s h
  apply-IsSynced (types_read g (ok l)) now s h =
      when_inv IsSynced _ _ _ h (types_found-IsSynced l now s)
  apply-IsSynced (types_read g (err e)) now s h =
      when_inv IsSynced _ _ _ h (finish_reconcile-IsSynced (now + reconcile_retry) now s)
  apply-IsSynced (types_written g r) now s h =
      when_inv IsSynced _ _ _ h (finish_reconcile-IsSynced _ now s)
