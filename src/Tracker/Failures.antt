-- ===== src/Tracker/Failures.antt =====
-- When a failing peer is disconnected.
use nexus_net.Base.HashMap
use nexus_net.Base.{
  ℕ, zero, suc, ◌+◌, ◌<◌, ◌^◌, ◌≡◌, ◌==◌, none, some, Eq, if◌then◌else◌, arith, Bool-cases, inl,
  inr,
}
use nexus_net.Tracker.{PeerTracker, pong, failed, on_ping, on_failure, count_failure}

module _ {PeerId : Type 0} ⦃e : Eq PeerId⦄ where
  abbrev pub failure_count : PeerTracker PeerId → PeerId → ℕ
  failure_count t p = elim (HashMap.get t.failures p) [ none ↦ 0 | some n ↦ n ]

  -- `n` failures of one peer in a row.
  unfoldable pub fail_times : PeerId → ℕ → ℕ → PeerTracker PeerId → PeerTracker PeerId
  fail_times p max zero t = t
  fail_times p max (suc n) t = (on_ping (failed p) max (fail_times p max n t)).0

  -- One failure: below the limit it is counted; at the limit the peer is to be disconnected, and the
  -- count starts again. The other peers keep theirs.
  pub on_ping_failed :
      (p : PeerId) (max : ℕ) (t : PeerTracker PeerId)
      → 0 < max
      → max < 2 ^ 32
      → failure_count t p < max
      → (failure_count t p + 1 < max
          → ((on_ping (failed p) max t).1 ≡ none)
            × (failure_count (on_ping (failed p) max t).0 p ≡ failure_count t p + 1))
        × (failure_count t p + 1 ≡ max
            → ((on_ping (failed p) max t).1 ≡ some p)
              × (failure_count (on_ping (failed p) max t).0 p ≡ 0))
  unfolding on_ping on_failure count_failure
  on_ping_failed p max t pos small below = (
    λ h. ground (arith, e.beq_iff p p, HashMap.get-insert p p (count_failure t p) t.failures),
    λ h. ground (arith, e.beq_iff p p, HashMap.get-remove p p t.failures),
  )

  pong_count :
      (p : PeerId) (max rtt : ℕ) (t : PeerTracker PeerId)
      → failure_count (on_ping (pong p rtt) max t).0 p ≡ 0
  unfolding on_ping
  pong_count p max rtt t = ground (arith, e.beq_iff p p, HashMap.get-remove p p t.failures)

  fail_times_count :
      (p : PeerId) (max n rtt : ℕ) (t : PeerTracker PeerId)
      → n < max
      → max < 2 ^ 32
      → failure_count (fail_times p max n (on_ping (pong p rtt) max t).0) p ≡ n
  unfolding fail_times
  fail_times_count p max zero rtt t h small = pong_count p max rtt t
  fail_times_count p max (suc n) rtt t h small =
      let u = fail_times p max n (on_ping (pong p rtt) max t).0 in
      let ih : failure_count u p ≡ n = fail_times_count p max n rtt t (omega arith) small in
      omega (
        arith,
        ((on_ping_failed p max u (omega arith) small (omega (arith, ih))).0 (omega (arith, ih))).1,
        ih,
      )

  -- After an answer, the first max - 1 failures in a row ask for nothing, and failure number max
  -- asks to disconnect the peer, for a max that a u32 holds.
  pub disconnects_at_limit :
      (p : PeerId) (max n rtt : ℕ) (t : PeerTracker PeerId)
      → n < max
      → max < 2 ^ 32
      → (on_ping (failed p) max (fail_times p max n (on_ping (pong p rtt) max t).0)).1
        ≡ (if suc n == max then some p else none)
  disconnects_at_limit p max n rtt t h small =
      let u = fail_times p max n (on_ping (pong p rtt) max t).0 in
      let ih : failure_count u p ≡ n = fail_times_count p max n rtt t h small in
      let (below, at) = on_ping_failed p max u (omega arith) small (omega (arith, ih)) in
      elim (Bool-cases (suc n == max)) [
        | inl last ↦ rw last ((at (ground (arith, ih))).0)
        | inr more ↦ rw more ((below (ground (arith, ih))).0)
      ]
