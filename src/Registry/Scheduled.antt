-- ===== src/Registry/Scheduled.antt =====
-- src/controller/service_registry.rs: the invariant of the registry for one service, with the
-- commands and the results.
pub mod Readiness
pub mod Rounds
use nexus_net.Base.HashSet
use nexus_net.Base.HashMap
use nexus_net.Base.{
  ℕ, ◌+◌, ◌≡◌, refl, Bool, true, false, not, ◌||◌, ◌&&◌, Option, none, some, List, [], ◌∷◌, ◌++◌,
  Name, name_eq, name_beq, name_beq_iff, arith, if◌then◌else◌, Result, ok, err, ◌==◌, length,
}
use nexus_net.Registry.State.{
  reconcile_retry, announce_retry_initial, RegistryState, ServiceCommand, bootstrap_completed, tick,
  reannounce, refresh_types, reset, relay_state_changed, relay_ready, new, JobResult, announced,
  withdrawn, types_read, types_written,
}
use nexus_net.Registry.Commands.{
  handle, mark_types_dirty, relay_changed, reset_state, relay_gained, relay_lost,
}
use nexus_net.Base.BTreeSet
use nexus_net.Registry.PlanRule.{when_inv}
use nexus_net.Registry.Types.{Json, merge_type_set, encode_types_limited}
use nexus_net.Registry.Apply.{
  SyncConfig, sync_interval, apply_types_read, apply_types_written, types_found, apply_encoded,
  finish_reconcile, apply_announced, apply_withdrawn, announce_succeeded, announce_failed,
  withdraw_succeeded, withdraw_failed,
}

infix 20 ◌implies◌
abbrev pub ◌implies◌ : Bool → Bool → Bool
a implies b = not a || b

abbrev pub is_announced : RegistryState → Name → Bool
is_announced s n = HashSet.contains s.announced n

abbrev pub is_ready : RegistryState → Name → Bool
is_ready s n = HashSet.contains s.backend_ready n

-- A withdrawal of the service is pending, due or running.
abbrev pub is_leaving : RegistryState → Name → Bool
is_leaving s n =
    HashMap.contains_key s.withdraw_deadline n
    || HashSet.contains s.withdraw_inflight n
    || HashSet.contains s.relay_withdraw n

pub record IsScheduled (n : Name) (s : RegistryState) : Type 0 where
  pub one_job :
      (HashSet.contains s.announce_inflight n && HashSet.contains s.withdraw_inflight n) ≡ false
  pub relay :
      (not (relay_ready s) && is_announced s n implies HashSet.contains s.relay_withdraw n) ≡ true
  pub leaving : (is_announced s n && not (is_ready s n) implies is_leaving s n) ≡ true

pub new-IsScheduled : (n : Name) → IsScheduled n new
unfolding HashSet.contains
new-IsScheduled n = record { one_job = refl; relay = refl; leaving = refl }

pub mark_types_dirty-IsScheduled :
    (n : Name) (now : ℕ) (s : RegistryState)
    → IsScheduled n s
    → IsScheduled n (mark_types_dirty now s)
unfolding mark_types_dirty
mark_types_dirty-IsScheduled n now s h = ground arith

relay_changed-IsScheduled :
    (n : Name) (need : Bool) (active : ℕ) (s : RegistryState)
    → IsScheduled n s
    → IsScheduled n (relay_changed need active s)
unfolding relay_changed relay_gained relay_lost HashSet.contains
relay_changed-IsScheduled n need active s h = ground (
  arith,
  HashSet.contains-extend s.relay_withdraw (s.announced ++ s.announce_inflight) n,
  HashSet.contains-append s.announced s.announce_inflight n,
)

pub handle-IsScheduled :
    (n : Name) (c : ServiceCommand) (now : ℕ) (s : RegistryState)
    → IsScheduled n s
    → IsScheduled n (handle c now s)
unfolding handle reset_state HashSet.contains
handle-IsScheduled n bootstrap_completed now s h =
    mark_types_dirty-IsScheduled n now _ (ground arith)
handle-IsScheduled n tick now s h = h
handle-IsScheduled n reannounce now s h = mark_types_dirty-IsScheduled n now _ (ground arith)
handle-IsScheduled n refresh_types now s h = mark_types_dirty-IsScheduled n now s h
handle-IsScheduled n (relay_state_changed need active) now s h =
    relay_changed-IsScheduled n need active s h
handle-IsScheduled n reset now s h = ground arith

pub apply_announced-IsScheduled :
    (n : Name) (g : ℕ) (service : Name) (result : Result Name (Unit {0})) (now : ℕ)
    (s : RegistryState)
    → IsScheduled n s
    → IsScheduled n (apply_announced g service result now s)
unfolding apply_announced announce_succeeded announce_failed mark_types_dirty
apply_announced-IsScheduled n g service (ok _) now s h = ground (
  arith,
  name_beq_iff service n,
  HashSet.contains-remove service n s.announce_inflight,
  HashSet.contains-insert service n s.announced,
  HashSet.contains-insert service n s.relay_withdraw,
  HashMap.get-insert service n now s.withdraw_deadline,
)
apply_announced-IsScheduled n g service (err _) now s h =
    ground (arith, HashSet.contains-remove service n s.announce_inflight)

-- A withdrawal that ends in the generation that started it.
pub apply_withdrawn-IsScheduled :
    (n : Name) (service : Name) (result : Result Name (Unit {0})) (now : ℕ) (s : RegistryState)
    → IsScheduled n s
    → IsScheduled n (apply_withdrawn s.generation service result now s)
unfolding apply_withdrawn withdraw_succeeded withdraw_failed
apply_withdrawn-IsScheduled n service (ok _) now s h = ground (
  arith,
  name_beq_iff service n,
  HashSet.contains-remove service n s.withdraw_inflight,
  HashSet.contains-remove service n s.announced,
  HashSet.contains-remove service n s.relay_withdraw,
)
apply_withdrawn-IsScheduled n service (err _) now s h = ground (
  arith,
  name_beq_iff service n,
  HashSet.contains-remove service n s.withdraw_inflight,
  HashMap.get-insert service n (now + announce_retry_initial) s.withdraw_deadline,
)

-- Reading and writing the type index leaves the services alone.
module _ (json : Json) (c : SyncConfig) (n : Name) where
  finish_reconcile-IsScheduled :
      (at now : ℕ) (s : RegistryState) → IsScheduled n s → IsScheduled n (finish_reconcile at now s)
  unfolding finish_reconcile
  finish_reconcile-IsScheduled at now s h = ground arith

  apply_encoded-IsScheduled :
      (r : Result Name (List ℕ × ℕ)) (now : ℕ) (s : RegistryState)
      → IsScheduled n s
      → IsScheduled n (apply_encoded json c r now s)
  unfolding apply_encoded
  apply_encoded-IsScheduled (ok _) now s h = ground arith
  apply_encoded-IsScheduled (err _) now s h = ground arith

  types_found-IsScheduled :
      (l : List Name) (now : ℕ) (s : RegistryState)
      → IsScheduled n s
      → IsScheduled n (types_found json c l now s)
  unfolding types_found
  types_found-IsScheduled l now s h =
      let known = merge_type_set (merge_type_set s.known_types l) s.announced in
      let t = record s { known_types = known } in
      let ht : IsScheduled n t = ground arith in
      when_inv (IsScheduled n) (length known == 0 || BTreeSet.equal known (BTreeSet.collect l)) _ _
        (finish_reconcile-IsScheduled (now + sync_interval c) now t ht)
        (apply_encoded-IsScheduled (encode_types_limited json known c.max_record_bytes) now t ht)

  pub apply_types_read-IsScheduled :
      (g : ℕ) (r : Result Name (List Name)) (now : ℕ) (s : RegistryState)
      → IsScheduled n s
      → IsScheduled n (apply_types_read json c g r now s)
  unfolding apply_types_read
  apply_types_read-IsScheduled g (ok l) now s h =
      when_inv (IsScheduled n) _ _ _ h (types_found-IsScheduled l now s h)
  apply_types_read-IsScheduled g (err e) now s h =
      when_inv (IsScheduled n) _ _ _ h
        (finish_reconcile-IsScheduled (now + reconcile_retry) now s h)

  pub apply_types_written-IsScheduled :
      (g : ℕ) (r : Result Name (Unit {0})) (now : ℕ) (s : RegistryState)
      → IsScheduled n s
      → IsScheduled n (apply_types_written json c g r now s)
  unfolding apply_types_written
  apply_types_written-IsScheduled g r now s h =
      when_inv (IsScheduled n) _ _ _ h (finish_reconcile-IsScheduled _ now s h)
