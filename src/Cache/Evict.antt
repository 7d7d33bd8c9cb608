-- ===== src/Cache/Evict.antt =====
-- src/dht_cache.rs: the loop of `evict` and the limits.
use nexus_net.Base.HashMap
use nexus_net.Base.{
  ℕ, suc, zero, ◌≤◌, ◌<◌, ◌≡◌, ◌⊎◌, inl, inr, true, none, some, List, [], ◌∷◌, Eq, length, arith,
  Option-cases, Bool-cases,
}
use nexus_net.Cache.Entries.{
  Entry, total_size, oldest, older, is_over, evict_round, evict_loop, evict,
}

module _ {K V : Type 0} ⦃e : Eq K⦄ where
  pub length-remove-lt :
      (k : K) (m : List (K × V))
      → HashMap.contains_key m k ≡ true
      → length (HashMap.remove k m) < length m
  unfolding HashMap.get HashMap.remove
  length-remove-lt k [] h = absurd (ground arith)
  length-remove-lt k ((j, v) ∷ m) h =
      ground (arith, length-remove-lt k m, HashMap.length-remove-le k m)

module _ {K V : Type 0} ⦃e : Eq K⦄ where
  oldest_present :
      (m : List (K × Entry V)) (victim : K × Entry V)
      → oldest m ≡ some victim
      → HashMap.contains_key m victim.0 ≡ true
  unfolding oldest older HashMap.get
  oldest_present [] victim h = absurd (ground arith)
  oldest_present ((k, v) ∷ m) victim h = elim (Option-cases (oldest m)) [
    | inl none' ↦ ground (arith, e.beq_iff k k)
    | inr ((j, w), some') ↦
        ground (arith, e.beq_iff k k, e.beq_iff k victim.0, oldest_present m (j, w) some')
  ]

  -- What a round of the loop does when it does not end it.
  pub round_some :
      (max_entries max_bytes : ℕ) (m rest : List (K × Entry V))
      → evict_round max_entries max_bytes m ≡ some rest
      → (victim : K × Entry V) × (oldest m ≡ some victim) × (rest ≡ HashMap.remove victim.0 m)
  unfolding evict_round
  round_some max_entries max_bytes m rest h = elim (Option-cases (oldest m)) [
    | inl none' ↦ absurd (ground arith)
    | inr (victim, some') ↦ (victim, some', ground arith)
  ]

  round_empty :
      (max_entries max_bytes : ℕ) → evict_round {K = K} {V = V} max_entries max_bytes [] ≡ none
  unfolding evict_round oldest
  round_empty max_entries max_bytes = ground arith

  loop_ends :
      (fuel max_entries max_bytes : ℕ) (m : List (K × Entry V))
      → length m ≤ fuel
      → evict_round max_entries max_bytes (evict_loop fuel max_entries max_bytes m) ≡ none
  unfolding evict_loop
  loop_ends zero max_entries max_bytes [] h = round_empty max_entries max_bytes
  loop_ends zero max_entries max_bytes (x ∷ m) h = absurd (omega (arith, h))
  loop_ends (suc fuel) max_entries max_bytes m h =
      elim (Option-cases (evict_round max_entries max_bytes m)) [
        | inl none' ↦ ground arith
        | inr (rest, some') ↦
            let (victim, least, removed) = round_some max_entries max_bytes m rest some' in
            let shorter : length rest < length m =
              ground (arith, length-remove-lt victim.0 m, oldest_present m victim least) in
            ground (arith, loop_ends fuel max_entries max_bytes rest)
      ]

  -- The fuel of `evict` suffices: a further round of its loop would end it.
  pub evict_ends :
      (max_entries max_bytes : ℕ) (m : List (K × Entry V))
      → evict_round max_entries max_bytes (evict max_entries max_bytes m) ≡ none
  unfolding evict
  evict_ends max_entries max_bytes m = loop_ends (length m) max_entries max_bytes m (omega arith)

  ended_fits :
      (max_entries max_bytes : ℕ) (m : List (K × Entry V))
      → evict_round max_entries max_bytes m ≡ none
      → ((length m ≤ max_entries) × (total_size m ≤ max_bytes)) ⊎ (length m ≤ 1)
  unfolding evict_round is_over oldest
  ended_fits max_entries max_bytes [] h = inr (omega arith)
  ended_fits max_entries max_bytes (x ∷ m) h =
      elim (Bool-cases (is_over max_entries max_bytes (x ∷ m))) [
        | inl over ↦ inr (ground arith)
        | inr within ↦ inl (ground arith, ground arith)
      ]

  -- After `evict` the entries are within both limits, or there is at most one of them.
  pub evict_fits :
      (max_entries max_bytes : ℕ) (m : List (K × Entry V))
      → ((length (evict max_entries max_bytes m) ≤ max_entries)
          × (total_size (evict max_entries max_bytes m) ≤ max_bytes))
        ⊎ (length (evict max_entries max_bytes m) ≤ 1)
  evict_fits max_entries max_bytes m =
      ended_fits max_entries max_bytes (evict max_entries max_bytes m)
        (evict_ends max_entries max_bytes m)
