-- ===== src/Registry/Generations.antt =====
-- src/controller/service_registry.rs: which operations change the generation.
use nexus_net.Base.BTreeSet
use nexus_net.Base.{ℕ, ◌==◌, ◌||◌, ◌≡◌, ◌≢◌, refl, List, Name, Result, ok, err, arith, length}
use nexus_net.Config.Schema.{LocalServiceEntry}
use nexus_net.Registry.State.{
  RegistryState, ServiceCommand, bootstrap_completed, tick, reannounce, refresh_types, reset,
  relay_state_changed, JobResult, announced, withdrawn, types_read, types_written,
}
use nexus_net.Registry.Commands.{handle, mark_types_dirty, relay_changed, relay_gained, relay_lost}
use nexus_net.Registry.Plan.{
  plan, start_withdraw, withdraw_round, start_announce, retry_round, local_round, reconcile_round,
}
use nexus_net.Registry.PlanRule.{plan_inv, when_inv}
use nexus_net.Registry.Types.{Json, merge_type_set, encode_types_limited}
use nexus_net.Registry.Apply.{
  SyncConfig, apply, apply_announced, apply_withdrawn, announce_succeeded, announce_failed,
  withdraw_succeeded, withdraw_failed, apply_types_read, apply_types_written, finish_reconcile,
  types_found, apply_encoded,
}

pub generation-handle :
    (c : ServiceCommand) (now : ℕ) (s : RegistryState)
    → c ≢ reset
    → (handle c now s).generation ≡ s.generation
unfolding handle mark_types_dirty relay_changed relay_gained relay_lost
generation-handle bootstrap_completed now s h = ground arith
generation-handle tick now s h = refl
generation-handle reannounce now s h = ground arith
generation-handle refresh_types now s h = ground arith
generation-handle (relay_state_changed need active) now s h = ground arith
generation-handle reset now s h = absurd (h refl)

pub generation-plan :
    (services : List LocalServiceEntry) (now slots : ℕ) (s : RegistryState)
    → (plan services now slots s).state.generation ≡ s.generation
unfolding withdraw_round start_withdraw retry_round local_round start_announce reconcile_round
generation-plan services now slots s =
    plan_inv (λ p. p.state.generation ≡ s.generation) services now (λ p k h. ground arith)
      (λ p k h. ground arith) (λ p k h. ground arith) (λ p h. ground arith) slots s refl

module _ (json : Json) (c : SyncConfig) where
  generation-apply_encoded :
      (r : Result Name (List ℕ × ℕ)) (now : ℕ) (s : RegistryState)
      → (apply_encoded json c r now s).generation ≡ s.generation
  unfolding apply_encoded
  generation-apply_encoded (ok _) now s = refl
  generation-apply_encoded (err _) now s = refl

  generation-types_found :
      (l : List Name) (now : ℕ) (s : RegistryState)
      → (types_found json c l now s).generation ≡ s.generation
  unfolding types_found finish_reconcile
  generation-types_found l now s =
      let known = merge_type_set (merge_type_set s.known_types l) s.announced in
      let t = record s { known_types = known } in
      when_inv (λ (u : RegistryState). u.generation ≡ s.generation)
        (length known == 0 || BTreeSet.equal known (BTreeSet.collect l)) _ _ (ground arith)
        (generation-apply_encoded (encode_types_limited json known c.max_record_bytes) now t)

  pub generation-apply :
      (r : JobResult) (now : ℕ) (s : RegistryState)
      → (apply json c r now s).generation ≡ s.generation
  unfolding apply apply_announced announce_succeeded announce_failed mark_types_dirty
      apply_withdrawn withdraw_succeeded withdraw_failed apply_types_read apply_types_written
      finish_reconcile
  generation-apply (announced g n (ok _)) now s = ground arith
  generation-apply (announced g n (err _)) now s = ground arith
  generation-apply (withdrawn g n (ok _)) now s = ground arith
  generation-apply (withdrawn g n (err _)) now s = ground arith
  generation-apply (types_read g (ok l)) now s =
      when_inv (λ (u : RegistryState). u.generation ≡ s.generation) _ _ _ refl
        (generation-types_found l now s)
  generation-apply (types_read g (err _)) now s = ground arith
  generation-apply (types_written g r) now s = ground arith
