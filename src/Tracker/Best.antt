-- ===== src/Tracker/Best.antt =====
-- src/controller/peer_tracker.rs: which provider `best_peer` picks.
use nexus_net.Base.HashMap
use nexus_net.Base.HashSet
use nexus_net.Base.{
  ℕ, ◌≤◌, ◌≡◌, refl, true, none, some, List, [], ◌∷◌, Eq, arith, All, Option-cases, Bool-cases, ltb,
  ◌⊎◌, inl, inr,
}
use nexus_net.Tracker.{PeerTracker, min_by_rtt, best_peer}

module _ {PeerId : Type 0} ⦃e : Eq PeerId⦄ (t : PeerTracker PeerId) where
  -- No known provider is nearer than `rtt`.
  abbrev pub NoneNearer : ℕ → List PeerId → Type 0
  NoneNearer rtt = All (λ p. (other : ℕ) → HashMap.get t.rtts p ≡ some other → rtt ≤ other)

  abbrev pub NoneKnown : List PeerId → Type 0
  NoneKnown = All (λ p. HashMap.get t.rtts p ≡ none)

  -- What the fold makes of a best so far and the providers that are left.
  record Improves (q : PeerId) (least : ℕ) (l : List PeerId) (p : PeerId) (rtt : ℕ) : Type 0 where
    no_worse : rtt ≤ least
    nearest : NoneNearer rtt l
    found :
        ((p ≡ q) × (rtt ≡ least))
        ⊎ ((HashSet.contains l p ≡ true) × (HashMap.get t.rtts p ≡ some rtt))

  min_by_rtt-Improves :
      (q : PeerId) (least : ℕ) (l : List PeerId)
      → (p : PeerId) × (rtt : ℕ) × (min_by_rtt t (some (q, least)) l ≡ some (p, rtt))
        × Improves q least l p rtt
  unfolding min_by_rtt HashSet.contains
  min_by_rtt-Improves q least [] =
      (q, least, refl, record { no_worse = omega arith; nearest = tt; found = inl (refl, refl) })
  min_by_rtt-Improves q least (x ∷ xs) = elim (Option-cases (HashMap.get t.rtts x)) [
    | inl unknown ↦
        let (p, rtt, eq, h) = min_by_rtt-Improves q least xs in
        (
          p,
          rtt,
          rw unknown eq,
          record {
            no_worse = h.no_worse;
            nearest = (λ other k. absurd (ground arith), h.nearest);
            found = ground (arith, h.found);
          },
        )
    | inr (near, known) ↦ elim (Bool-cases (ltb near least)) [
      | inl less ↦
          let (p, rtt, eq, h) = min_by_rtt-Improves x near xs in
          (
            p,
            rtt,
            rw (known, less) eq,
            record {
              no_worse = ground (arith, h.no_worse);
              nearest = (λ other k. ground (arith, h.no_worse), h.nearest);
              found = ground (arith, h.found, e.beq_iff x p);
            },
          )
      | inr more ↦
          let (p, rtt, eq, h) = min_by_rtt-Improves q least xs in
          (
            p,
            rtt,
            rw (known, more) eq,
            record {
              no_worse = h.no_worse;
              nearest = (λ other k. ground (arith, h.no_worse), h.nearest);
              found = ground (arith, h.found);
            },
          )
    ]
  ]

  -- The fold from nothing.
  pub record Finds (l : List PeerId) (p : PeerId) (rtt : ℕ) : Type 0 where
    pub member : HashSet.contains l p ≡ true
    pub known : HashMap.get t.rtts p ≡ some rtt
    pub nearest : NoneNearer rtt l

  min_by_rtt_cases :
      (l : List PeerId)
      → (NoneKnown l × (min_by_rtt t none l ≡ none))
        ⊎ ((p : PeerId) × (rtt : ℕ) × (min_by_rtt t none l ≡ some (p, rtt)) × Finds l p rtt)
  unfolding min_by_rtt HashSet.contains
  min_by_rtt_cases [] = inl (tt, refl)
  min_by_rtt_cases (x ∷ xs) = elim (Option-cases (HashMap.get t.rtts x)) [
    | inl missing ↦ elim (min_by_rtt_cases xs) [
      | inl (all, eq) ↦ inl ((missing, all), rw missing eq)
      | inr (p, rtt, eq, h) ↦ inr (
        p,
        rtt,
        rw missing eq,
        record {
          member = ground (arith, h.member);
          known = h.known;
          nearest = (λ other k. absurd (ground arith), h.nearest);
        },
      )
    ]
    | inr (near, known) ↦
        let (p, rtt, eq, h) = min_by_rtt-Improves x near xs in
        inr (
          p,
          rtt,
          rw known eq,
          record {
            member = ground (arith, h.found, e.beq_iff x p);
            known = ground (arith, h.found);
            nearest = (λ other k. ground (arith, h.no_worse), h.nearest);
          },
        )
  ]

  -- `best_peer` picks one of the providers, of known time and with no nearer known provider, and
  -- fails only if it knows none of them.
  pub best_peer_cases :
      (l : List PeerId)
      → (NoneKnown l × (best_peer t l ≡ none))
        ⊎ ((p : PeerId) × (rtt : ℕ) × (best_peer t l ≡ some p) × Finds l p rtt)
  unfolding best_peer
  best_peer_cases l = elim (min_by_rtt_cases l) [
    | inl (all, eq) ↦ inl (all, rw (eq, best_peer))
    | inr (p, rtt, eq, h) ↦ inr (p, rtt, rw (eq, best_peer), h)
  ]
