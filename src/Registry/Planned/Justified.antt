-- ===== src/Registry/Planned/Justified.antt =====
-- Why `plan` starts a job, read off the state that it begins with.
use nexus_net.Base.HashSet
use nexus_net.Base.BTreeSet
use nexus_net.Base.{
  ℕ, ltb, Option-cases, inl, inr, ◌≡◌, refl, true, false, not, ◌||◌, ◌&&◌, some, List, foldl, Name,
  name_eq, arith, All, append-All, All-imp, map-All, select-All, select_passes, foldl_inv,
  foldl_inv_all, Bool-cases,
}
use nexus_net.Config.Schema.{LocalServiceEntry}
use nexus_net.Registry.State.{
  service_key, RegistryState, JobSpec, announce, withdraw, read_types, write_types, ReconcileState,
  idle, ready_to_write, relay_ready,
}
use nexus_net.Registry.Plan.{
  Planning, plan, plan_reconcile, plan_withdrawals, plan_retries, plan_local, busy, start_withdraw,
  start_announce, withdraw_round, retry_round, local_round, reconcile_round, withdrawals_due,
  retries_due, deadline_passed, relay_withdraw_due, retry_due, local_names, sync_due,
}
use nexus_net.Registry.PlanRule.{
  start, loops, when_inv, withdraw_round_elim, retry_round_elim, local_round_elim,
}
use nexus_net.Registry.Scheduled.{◌implies◌, is_ready, is_announced}

-- The reason for each job: a service is announced only if it is ready, not announced and reachable;
-- it is withdrawn only if it is not ready or has lost its relay; and neither while a job of it runs.
abbrev pub Justified : ℕ → RegistryState → JobSpec → Type 0
Justified now s (announce g n k) =
    (g ≡ s.generation)
    × (k ≡ service_key n)
    × (is_ready s n ≡ true)
    × (is_announced s n ≡ false)
    × (relay_ready s ≡ true)
    × (busy s n ≡ false)
Justified now s (withdraw g n k) =
    (g ≡ s.generation)
    × (k ≡ service_key n)
    × ((not (is_ready s n) || HashSet.contains s.relay_withdraw n) ≡ true)
    × (busy s n ≡ false)
Justified now s (read_types g) =
    (g ≡ s.generation)
    × (s.reconcile ≡ idle)
    × ((s.reconcile_dirty || sync_due now s.next_types_sync) ≡ true)
Justified now s (write_types g v) =
    (g ≡ s.generation) × (s.reconcile ≡ ready_to_write) × (s.pending_types_write ≡ some v)

-- What the loops leave alone, with the jobs so far. A service with a job in flight keeps it.
record Grounded (now : ℕ) (s : RegistryState) (p : Planning) : Type 0 where
  ready : p.state.backend_ready ≡ s.backend_ready
  announced : p.state.announced ≡ s.announced
  relay_withdraw : p.state.relay_withdraw ≡ s.relay_withdraw
  need_relay : p.state.need_relay ≡ s.need_relay
  active_relays : p.state.active_relays ≡ s.active_relays
  generation : p.state.generation ≡ s.generation
  reconcile : p.state.reconcile ≡ s.reconcile
  dirty : p.state.reconcile_dirty ≡ s.reconcile_dirty
  next_sync : p.state.next_types_sync ≡ s.next_types_sync
  pending : p.state.pending_types_write ≡ s.pending_types_write
  kept : (n : Name) → (busy s n implies busy p.state n) ≡ true
  jobs : All (Justified now s) p.jobs

module _ (now : ℕ) (s : RegistryState) where
  start_withdraw-Grounded :
      (p : Planning) (k : Name)
      → (not (is_ready s k) || HashSet.contains s.relay_withdraw k) ≡ true
      → busy p.state k ≡ false
      → Grounded now s p
      → Grounded now s (start_withdraw p k)
  unfolding start_withdraw
  start_withdraw-Grounded p k why free h = record {
    ready = h.ready;
    announced = h.announced;
    relay_withdraw = h.relay_withdraw;
    need_relay = h.need_relay;
    active_relays = h.active_relays;
    generation = h.generation;
    reconcile = h.reconcile;
    dirty = h.dirty;
    next_sync = h.next_sync;
    pending = h.pending;
    kept = λ n. ground (arith, h.kept n, HashSet.contains-insert k n p.state.withdraw_inflight);
    jobs =
        append-All (Justified now s) p.jobs _ h.jobs
          ((h.generation, refl, why, ground (arith, h.kept k)), tt);
  }

  start_announce-Grounded :
      (p : Planning) (k : Name)
      → (is_ready s k && not (is_announced s k) && relay_ready s) ≡ true
      → busy p.state k ≡ false
      → Grounded now s p
      → Grounded now s (start_announce p k)
  unfolding start_announce
  start_announce-Grounded p k why free h = record {
    ready = h.ready;
    announced = h.announced;
    relay_withdraw = h.relay_withdraw;
    need_relay = h.need_relay;
    active_relays = h.active_relays;
    generation = h.generation;
    reconcile = h.reconcile;
    dirty = h.dirty;
    next_sync = h.next_sync;
    pending = h.pending;
    kept = λ n. ground (arith, h.kept n, HashSet.contains-insert k n p.state.announce_inflight);
    jobs = append-All (Justified now s) p.jobs _ h.jobs (
      (h.generation, refl, ground arith, ground arith, ground arith, ground (arith, h.kept k)),
      tt,
    );
  }

-- The reasons that the lists of due services carry.
abbrev MayLeave : RegistryState → Name → Type 0
MayLeave s k = (not (is_ready s k) || HashSet.contains s.relay_withdraw k) ≡ true

abbrev MayRetry : RegistryState → Name → Type 0
MayRetry s k = (is_ready s k && not (is_announced s k) && relay_ready s) ≡ true

withdrawals_due-All : (now : ℕ) (s : RegistryState) → All (MayLeave s) (withdrawals_due now s)
unfolding withdrawals_due
withdrawals_due-All now s = BTreeSet.dedup-All (MayLeave s) _ (
    BTreeSet.sort-All (MayLeave s) _ (
      append-All (MayLeave s) _ _
        (map-All (MayLeave s) (λ e. e.0) _
          (All-imp _ (λ e h. ground arith)
            (select_passes (deadline_passed now s) s.withdraw_deadline)))
        (select-All (relay_withdraw_due now s) (MayLeave s) s.relay_withdraw
          (All-imp _ (λ k h. ground arith) (HashSet.contains_self s.relay_withdraw)))))

retries_due-All : (now : ℕ) (s : RegistryState) → All (MayRetry s) (retries_due now s)
unfolding retries_due
retries_due-All now s = BTreeSet.sort-All (MayRetry s) _ (
    map-All (MayRetry s) (λ e. e.0) _
      (All-imp _ (λ e h. ground arith) (select_passes (retry_due now s) s.announce_retry_at)))

module _ (now : ℕ) (s : RegistryState) where
  plan_withdrawals-Grounded :
      (p : Planning) → Grounded now s p → Grounded now s (plan_withdrawals now p)
  unfolding plan_withdrawals
  plan_withdrawals-Grounded p h =
      foldl_inv_all (Grounded now s) (MayLeave s) withdraw_round
        (λ q k why g.
          withdraw_round_elim (Grounded now s) q k g
            (λ free _. start_withdraw-Grounded now s q k why free g))
        p _ (All-imp _ (λ k w. ground arith) (withdrawals_due-All now p.state)) h

  plan_retries-Grounded : (p : Planning) → Grounded now s p → Grounded now s (plan_retries now p)
  unfolding plan_retries
  plan_retries-Grounded p h =
      foldl_inv_all (Grounded now s) (MayRetry s) retry_round
        (λ q k why g.
          retry_round_elim (Grounded now s) q k g
            (λ free _. start_announce-Grounded now s q k why free g))
        p _ (All-imp _ (λ k w. ground arith) (retries_due-All now p.state)) h

  local_loop-Grounded :
      (l : List Name) (p : Planning)
      → relay_ready s ≡ true
      → Grounded now s p
      → Grounded now s (foldl (local_round now) p l)
  local_loop-Grounded l p relay h =
      foldl_inv (Grounded now s) (local_round now)
        (λ q k g.
          local_round_elim (Grounded now s) q k g now
            (λ free _ ready fresh. start_announce-Grounded now s q k (ground arith) free g))
        p l h

  plan_local-Grounded :
      (services : List LocalServiceEntry) (p : Planning)
      → Grounded now s p
      → Grounded now s (plan_local services now p)
  unfolding plan_local
  plan_local-Grounded services p h =
      elim (Bool-cases (p.state.bootstrapped && relay_ready p.state && ltb 0 p.slots)) [
        | inl go ↦ rw go (local_loop-Grounded (local_names services) p (ground arith) h)
        | inr stay ↦ rw stay h
      ]

  reconcile_round-Justified :
      (r : ReconcileState) (p : Planning)
      → p.state.reconcile ≡ r
      → Grounded now s p
      → All (Justified now s) (reconcile_round now r p).jobs
  unfolding reconcile_round
  reconcile_round-Justified idle p e h =
      elim (Bool-cases (p.state.reconcile_dirty || sync_due now p.state.next_types_sync)) [
        | inl go ↦ rw go (
            append-All (Justified now s) p.jobs _ h.jobs
              ((h.generation, ground arith, ground arith), tt))
        | inr stay ↦ rw stay (h.jobs)
      ]
  reconcile_round-Justified ready_to_write p e h = elim (Option-cases p.state.pending_types_write) [
    | inl none' ↦ rw (none', reconcile_round) (h.jobs)
    | inr (v, some') ↦
        rw (some', reconcile_round)
          (append-All (Justified now s) p.jobs _ h.jobs
            ((h.generation, ground arith, ground arith), tt))
  ]
  reconcile_round-Justified _ p e h = h.jobs

  start-Grounded : (slots : ℕ) → Grounded now s (start slots s)
  start-Grounded slots = record {
    ready = refl;
    announced = refl;
    relay_withdraw = refl;
    need_relay = refl;
    active_relays = refl;
    generation = refl;
    reconcile = refl;
    dirty = refl;
    next_sync = refl;
    pending = refl;
    kept = λ n. ground arith;
    jobs = tt;
  }

  -- Each job of a plan has its reason in the state the plan is made for: an announced service is
  -- ready, not announced, and has a usable relay; a withdrawn one is not ready or has lost its
  -- relay; neither has a job in flight; the type index is read when it is due and written when a
  -- value waits.
  pub plan-Justified :
      (services : List LocalServiceEntry) (slots : ℕ)
      → All (Justified now s) (plan services now slots s).jobs
  unfolding plan plan_reconcile
  plan-Justified services slots =
      let p = loops services now slots s in
      let h =
        plan_local-Grounded services _
          (plan_retries-Grounded _ (plan_withdrawals-Grounded _ (start-Grounded slots))) in
      when_inv (λ (q : Planning). All (Justified now s) q.jobs) (ltb 0 p.slots) _ _
        (reconcile_round-Justified p.state.reconcile p refl h) h.jobs
