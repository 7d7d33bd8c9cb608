-- ===== src/Registry/Planned/Progress.antt =====
-- src/controller/service_registry.rs: what `plan` starts when slots are left over.
use nexus_net.Base.HashSet
use nexus_net.Base.HashMap
use nexus_net.Base.{
  ℕ, ◌<◌, ◌≤◌, ltb, inl, inr, ◌≡◌, refl, true, false, not, ◌||◌, ◌&&◌, List, [], ◌∷◌, foldl, Name,
  name_eq, name_beq, name_beq_iff, arith, foldl_inv, Bool-cases,
}
use nexus_net.Config.Schema.{LocalServiceEntry}
use nexus_net.Registry.State.{RegistryState, relay_ready, ReconcileState, idle, ready_to_write}
use nexus_net.Registry.Plan.{
  Planning, plan, plan_reconcile, plan_withdrawals, plan_retries, plan_local, busy, start_withdraw,
  start_announce, withdraw_round, retry_round, local_round, reconcile_round, withdrawals_due,
  retries_due, local_names, is_later,
}
use nexus_net.Registry.PlanRule.{
  start, loops, withdraw_round_elim, retry_round_elim, local_round_elim,
}
use nexus_net.Registry.Scheduled.{is_ready, is_announced}

module _ (now : ℕ) (n : Name) where
  -- The service may be announced now, unless a job of it is in flight.
  record IsOpen (p : Planning) : Type 0 where
    bootstrapped : p.state.bootstrapped ≡ true
    relay : relay_ready p.state ≡ true
    ready : is_ready p.state n ≡ true
    fresh : is_announced p.state n ≡ false
    due : (busy p.state n || not (is_later now (HashMap.get p.state.announce_retry_at n))) ≡ true

  start_withdraw-IsOpen : (p : Planning) (k : Name) → IsOpen p → IsOpen (start_withdraw p k)
  unfolding start_withdraw
  start_withdraw-IsOpen p k h =
      ground (arith, HashSet.contains-insert k n p.state.withdraw_inflight)

  start_announce-IsOpen : (p : Planning) (k : Name) → IsOpen p → IsOpen (start_announce p k)
  unfolding start_announce
  start_announce-IsOpen p k h = ground (
    arith,
    name_beq_iff k n,
    HashSet.contains-insert k n p.state.announce_inflight,
    HashMap.get-remove k n p.state.announce_retry_at,
  )

  plan_withdrawals-IsOpen : (p : Planning) → IsOpen p → IsOpen (plan_withdrawals now p)
  unfolding plan_withdrawals
  plan_withdrawals-IsOpen p h =
      foldl_inv IsOpen withdraw_round
        (λ q k g. withdraw_round_elim IsOpen q k g (λ _ _. start_withdraw-IsOpen q k g)) p
        (withdrawals_due now p.state) h

  plan_retries-IsOpen : (p : Planning) → IsOpen p → IsOpen (plan_retries now p)
  unfolding plan_retries
  plan_retries-IsOpen p h =
      foldl_inv IsOpen retry_round
        (λ q k g. retry_round_elim IsOpen q k g (λ _ _. start_announce-IsOpen q k g)) p
        (retries_due now p.state) h

  local_round-IsOpen : (p : Planning) (k : Name) → IsOpen p → IsOpen (local_round now p k)
  local_round-IsOpen p k g =
      local_round_elim IsOpen p k g now (λ _ _ _ _. start_announce-IsOpen p k g)

  -- A job in flight stays in flight.
  local_round-busy :
      (p : Planning) (k : Name) → busy p.state n ≡ true → busy (local_round now p k).state n ≡ true
  unfolding start_announce
  local_round-busy p k h =
      local_round_elim (λ q. busy q.state n ≡ true) p k h now
        (λ _ _ _ _. ground (arith, HashSet.contains-insert k n p.state.announce_inflight))

  local_round_slots : (p : Planning) (k : Name) → (local_round now p k).slots ≤ p.slots
  unfolding start_announce
  local_round_slots p k =
      local_round_elim (λ q. q.slots ≤ p.slots) p k (omega arith) now (λ _ _ _ _. omega arith)

  local_loop_slots : (l : List Name) (p : Planning) → (foldl (local_round now) p l).slots ≤ p.slots
  local_loop_slots [] p = omega arith
  local_loop_slots (x ∷ xs) p =
      omega (arith, local_loop_slots xs (local_round now p x), local_round_slots p x)

  local_round_self :
      (p : Planning) → IsOpen p → 0 < p.slots → busy (local_round now p n).state n ≡ true
  unfolding local_round start_announce
  local_round_self p h left =
      ground (arith, HashSet.contains-insert n n p.state.announce_inflight, name_beq_iff n n)

  local_loop_complete :
      (l : List Name) (p : Planning)
      → HashSet.contains l n ≡ true
      → IsOpen p
      → 0 < (foldl (local_round now) p l).slots
      → busy (foldl (local_round now) p l).state n ≡ true
  unfolding HashSet.contains
  local_loop_complete [] p m h left = cc
  local_loop_complete (x ∷ xs) p m h left = elim (Bool-cases (name_beq x n)) [
    | inl here ↦
        let e : x ≡ n = (name_beq_iff x n).0 here in
        foldl_inv (λ q. busy q.state n ≡ true) (local_round now) local_round-busy _ xs
          (rw e (
            local_round_self p h
              (omega (arith, local_loop_slots xs (local_round now p x), local_round_slots p x))))
    | inr later ↦
        local_loop_complete xs (local_round now p x) (ground arith) (local_round-IsOpen p x h) left
  ]

  pub reconcile_round_keeps :
      (r : ReconcileState) (p : Planning)
      → (busy (reconcile_round now r p).state n ≡ busy p.state n)
        × ((reconcile_round now r p).slots ≡ p.slots)
  unfolding reconcile_round
  reconcile_round_keeps idle p = ground arith
  reconcile_round_keeps ready_to_write p = ground arith
  reconcile_round_keeps _ p = (refl, refl)

  plan_local_complete :
      (services : List LocalServiceEntry) (p : Planning)
      → HashSet.contains (local_names services) n ≡ true
      → IsOpen p
      → 0 < (plan_local services now p).slots
      → busy (plan_local services now p).state n ≡ true
  unfolding plan_local
  plan_local_complete services p m h left =
      elim (Bool-cases (p.state.bootstrapped && relay_ready p.state && ltb 0 p.slots)) [
        | inl go ↦ rw go (local_loop_complete (local_names services) p m h (rw go at left))
        | inr stay ↦ absurd (ground arith)
      ]

  -- A configured service that is ready, not announced and not waiting for a later retry has a job in
  -- flight after `plan`, if the node is bootstrapped, its relay is ready and a slot is left over.
  pub plan_complete :
      (services : List LocalServiceEntry) (slots : ℕ) (s : RegistryState)
      → HashSet.contains (local_names services) n ≡ true
      → s.bootstrapped ≡ true
      → relay_ready s ≡ true
      → is_ready s n ≡ true
      → is_announced s n ≡ false
      → is_later now (HashMap.get s.announce_retry_at n) ≡ false
      → 0 < (plan services now slots s).slots
      → busy (plan services now slots s).state n ≡ true
  unfolding plan plan_reconcile
  plan_complete services slots s m b r ready fresh due left =
      let p = loops services now slots s in
      let q = plan_retries now (plan_withdrawals now (start slots s)) in
      let open_q = plan_retries-IsOpen _ (
        plan_withdrawals-IsOpen (start slots s) (record {
          bootstrapped = b;
          relay = r;
          ready = ready;
          fresh = fresh;
          due = ground arith;
        })) in
      ground
        (arith, plan_local_complete services q m open_q, reconcile_round_keeps p.state.reconcile p)
