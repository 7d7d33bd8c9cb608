-- ===== src/Registry/PlanRule.antt =====
-- The invariant rule for `plan`: what every round keeps holds at the end.
use nexus_net.Base.HashMap
use nexus_net.Base.HashSet
use nexus_net.Base.{
  ℕ, ◌<◌, ◌==◌, ◌≡◌, arith, true, false, ◌&&◌, List, [], Name, name_eq, ltb, foldl_inv, Bool-cases,
  inl, inr,
}
pub use nexus_net.Base.{when_inv}
use nexus_net.Config.Schema.{LocalServiceEntry}
use nexus_net.Registry.State.{RegistryState, relay_ready}
use nexus_net.Registry.Plan.{
  busy, unwanted, start_withdraw, start_announce, is_later, Planning, plan, withdraw_round,
  retry_round, local_round, reconcile_round, plan_withdrawals, plan_retries, plan_local,
  plan_reconcile, local_names, withdrawals_due, retries_due,
}

-- The planning that `plan` begins with.
abbrev pub start : ℕ → RegistryState → Planning
start slots s = record { state = s; slots = slots; jobs = [] }

-- The three loops of `plan`.
abbrev pub loops : List LocalServiceEntry → ℕ → ℕ → RegistryState → Planning
loops services now slots s =
    plan_local services now (plan_retries now (plan_withdrawals now (start slots s)))

module _ {ℓ} (P : Planning → Type ℓ) (services : List LocalServiceEntry) (now : ℕ)
    (withdrawn : (p : Planning) (k : Name) → P p → P (withdraw_round p k))
    (retried : (p : Planning) (k : Name) → P p → P (retry_round p k))
    (local : (p : Planning) (k : Name) → P p → P (local_round now p k)) where
  withdrawals_inv : (p : Planning) → P p → P (plan_withdrawals now p)
  unfolding plan_withdrawals
  withdrawals_inv p h = foldl_inv P withdraw_round withdrawn p (withdrawals_due now p.state) h

  retries_inv : (p : Planning) → P p → P (plan_retries now p)
  unfolding plan_retries
  retries_inv p h = foldl_inv P retry_round retried p (retries_due now p.state) h

  local_inv : (p : Planning) → P p → P (plan_local services now p)
  unfolding plan_local
  local_inv p h =
      when_inv P (p.state.bootstrapped && relay_ready p.state && ltb 0 p.slots) _ _
        (foldl_inv P (local_round now) local p (local_names services) h) h

  pub loops_inv :
      (slots : ℕ) (s : RegistryState) → P (start slots s) → P (loops services now slots s)
  loops_inv slots s h = local_inv _ (retries_inv _ (withdrawals_inv (start slots s) h))

  pub plan_inv :
      ((p : Planning) → P p → P (reconcile_round now p.state.reconcile p))
      → (slots : ℕ) (s : RegistryState) → P (start slots s)
      → P (plan services now slots s)
  unfolding plan plan_reconcile
  plan_inv reconciled slots s h =
      let q = loops_inv slots s h in
      when_inv P (ltb 0 (loops services now slots s).slots) _ _ (reconciled _ q) q

-- Each round either leaves the planning alone or starts a job of a service that has none.
module _ {ℓ} (P : Planning → Type ℓ) (p : Planning) (k : Name) (h : P p) where
  pub withdraw_round_elim :
      (busy p.state k ≡ false → 0 < p.slots → P (start_withdraw p k)) → P (withdraw_round p k)
  unfolding withdraw_round
  withdraw_round_elim go = elim (Bool-cases (p.slots == 0)) [
    | inl none ↦ rw none h
    | inr some ↦ elim (Bool-cases (busy p.state k)) [
      | inl taken ↦ rw (some, taken) h
      | inr free ↦ rw (some, free) (go free (ground arith))
    ]
  ]

  pub retry_round_elim :
      (busy p.state k ≡ false → 0 < p.slots → P (start_announce p k)) → P (retry_round p k)
  unfolding retry_round
  retry_round_elim go = elim (Bool-cases (p.slots == 0)) [
    | inl none ↦ rw none h
    | inr some ↦ elim (Bool-cases (busy p.state k)) [
      | inl taken ↦ rw (some, taken) h
      | inr free ↦ rw (some, free) (go free (ground arith))
    ]
  ]

  pub local_round_elim :
      (now : ℕ)
      → (busy p.state k ≡ false
          → 0 < p.slots
          → HashSet.contains p.state.backend_ready k ≡ true
          → HashSet.contains p.state.announced k ≡ false
          → P (start_announce p k))
      → P (local_round now p k)
  unfolding local_round
  local_round_elim now go = elim (Bool-cases (p.slots == 0)) [
    | inl none ↦ rw none h
    | inr some ↦ elim (Bool-cases (unwanted p k)) [
      | inl skip ↦ rw (some, skip) h
      | inr wanted ↦
          rw (some, wanted)
            (when_inv P (is_later now (HashMap.get p.state.announce_retry_at k)) _ _ h
              (go (ground arith) (ground arith) (ground arith) (ground arith)))
    ]
  ]

-- What holds at the start and is kept by each job that a loop starts holds after the loops.
module _ {ℓ} (P : Planning → Type ℓ)
    (withdrawn : (p : Planning) (k : Name)
      → busy p.state k ≡ false
      → 0 < p.slots
      → P p
      → P (start_withdraw p k))
    (announced : (p : Planning) (k : Name)
      → busy p.state k ≡ false
      → 0 < p.slots
      → P p
      → P (start_announce p k)) where
  pub starts_inv :
      (services : List LocalServiceEntry) (now slots : ℕ) (s : RegistryState)
      → P (start slots s)
      → P (loops services now slots s)
  starts_inv services now =
      loops_inv P services now
        (λ p k h. withdraw_round_elim P p k h (λ free left. withdrawn p k free left h))
        (λ p k h. retry_round_elim P p k h (λ free left. announced p k free left h))
        (λ p k h. local_round_elim P p k h now (λ free left _ _. announced p k free left h))
