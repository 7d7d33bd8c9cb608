-- ===== src/Cache/Recency.antt =====
-- src/dht_cache.rs: which entries `evict` removes.
use nexus_net.Base.HashMap
use nexus_net.Base.{
  ℕ, suc, zero, ◌≤◌, ◌≡◌, ◌⊎◌, inl, inr, false, none, some, List, [], ◌∷◌, Eq, leb, length, arith,
  Option-cases, Bool-cases, All, All-imp, subst, sym,
}
use nexus_net.Cache.Entries.{Entry, oldest, older, evict_round, evict_loop, evict}
use nexus_net.Cache.Evict.{round_some}

module _ {K V : Type 0} ⦃e : Eq K⦄ where
  -- No key occurs twice.
  abbrev pub IsMap : List (K × V) → Type 0
  IsMap [] = Unit
  IsMap ((k, v) ∷ m) = (HashMap.contains_key m k ≡ false) × IsMap m

  pub remove-All :
      (P : K × V → Type 0) (k : K) (m : List (K × V)) → All P m → All P (HashMap.remove k m)
  unfolding HashMap.remove
  remove-All P k [] h = tt
  remove-All P k ((j, v) ∷ m) h = elim (Bool-cases (e.beq j k)) [
    | inl same ↦ rw same (remove-All P k m h.1)
    | inr other ↦ rw other (h.0, remove-All P k m h.1)
  ]

  pub remove-IsMap : (k : K) (m : List (K × V)) → IsMap m → IsMap (HashMap.remove k m)
  unfolding HashMap.remove
  remove-IsMap k [] h = tt
  remove-IsMap k ((j, v) ∷ m) h = elim (Bool-cases (e.beq j k)) [
    | inl same ↦ rw same (remove-IsMap k m h.1)
    | inr other ↦ rw other (ground (arith, HashMap.get-remove k j m), remove-IsMap k m h.1)
  ]

  pub insert-IsMap : (k : K) (v : V) (m : List (K × V)) → IsMap m → IsMap (HashMap.insert k v m)
  unfolding HashMap.insert
  insert-IsMap k v m h =
      (ground (arith, HashMap.get-remove k k m, e.beq_iff k k), remove-IsMap k m h)

module _ {K V : Type 0} ⦃e : Eq K⦄ where
  -- An entry that was not accessed before a given time.
  abbrev pub Since : ℕ → K × Entry V → Type 0
  Since time x = time ≤ x.1.last_access

  oldest_least :
      (m : List (K × Entry V)) (j : K) (w : Entry V)
      → oldest m ≡ some (j, w)
      → All (Since w.last_access) m
  unfolding oldest older
  oldest_least [] j w h = tt
  oldest_least ((k, v) ∷ []) j w h = (ground arith, tt)
  oldest_least ((k, v) ∷ x ∷ m) j w h = elim (Option-cases (oldest (x ∷ m))) [
    | inl none' ↦ absurd (ground arith)
    | inr ((i, u), some') ↦
        let least : All (Since u.last_access) (x ∷ m) = oldest_least (x ∷ m) i u some' in
        elim (Bool-cases (leb v.last_access u.last_access)) [
          | inl le ↦
              let is_v : w ≡ v = ground arith in
              (ground arith, All-imp (x ∷ m) (λ y since. ground arith) least)
          | inr gt ↦
              let is_u : w ≡ u = ground arith in
              (ground arith, subst (λ z. All (Since z.last_access) (x ∷ m)) (sym is_u) least)
        ]
  ]

  oldest-get :
      (m : List (K × Entry V)) (j : K) (w : Entry V)
      → IsMap m
      → oldest m ≡ some (j, w)
      → HashMap.get m j ≡ some w
  unfolding oldest older HashMap.get
  oldest-get [] j w map h = absurd (ground arith)
  oldest-get ((k, v) ∷ m) j w map h = elim (Option-cases (oldest m)) [
    | inl none' ↦ ground (arith, e.beq_iff k k)
    | inr ((i, u), some') ↦ ground (arith, e.beq_iff k j, oldest-get m i u map.1 some')
  ]

  loop_next :
      (fuel max_entries max_bytes : ℕ) (m rest : List (K × Entry V))
      → evict_round max_entries max_bytes m ≡ some rest
      → evict_loop (suc fuel) max_entries max_bytes m ≡ evict_loop fuel max_entries max_bytes rest
  unfolding evict_loop
  loop_next fuel max_entries max_bytes m rest h = ground arith

  loop_end :
      (fuel max_entries max_bytes : ℕ) (m : List (K × Entry V))
      → evict_round max_entries max_bytes m ≡ none
      → evict_loop (suc fuel) max_entries max_bytes m ≡ m
  unfolding evict_loop
  loop_end fuel max_entries max_bytes m h = ground arith

  module _ (P : List (K × Entry V) → Type 0)
      (step : (m : List (K × Entry V)) (victim : K × Entry V)
        → P m
        → oldest m ≡ some victim
        → P (HashMap.remove victim.0 m)) where
    -- What a removal of the oldest entry preserves, the loop does.
    evict_loop_rule :
        (fuel max_entries max_bytes : ℕ) (m : List (K × Entry V))
        → P m
        → P (evict_loop fuel max_entries max_bytes m)
    unfolding evict_loop
    evict_loop_rule zero max_entries max_bytes m h = h
    evict_loop_rule (suc fuel) max_entries max_bytes m h =
        elim (Option-cases (evict_round max_entries max_bytes m)) [
          | inl none' ↦ subst P (sym (loop_end fuel max_entries max_bytes m none')) h
          | inr (rest, some') ↦
              let (victim, least, removed) = round_some max_entries max_bytes m rest some' in
              subst P (sym (loop_next fuel max_entries max_bytes m rest some')) (
                evict_loop_rule fuel max_entries max_bytes rest
                  (subst P (sym removed) (step m victim h least)))
        ]

    pub evict_rule :
        (max_entries max_bytes : ℕ) (m : List (K × Entry V))
        → P m
        → P (evict max_entries max_bytes m)
    unfolding evict
    evict_rule max_entries max_bytes m h = evict_loop_rule (length m) max_entries max_bytes m h

module _ {K V : Type 0} ⦃e : Eq K⦄ where
  pub evict-IsMap :
      (max_entries max_bytes : ℕ) (m : List (K × Entry V))
      → IsMap m
      → IsMap (evict max_entries max_bytes m)
  evict-IsMap = evict_rule IsMap (λ m victim h least. remove-IsMap victim.0 m h)

  -- An entry was kept, or it was removed and all that are left were accessed since it was.
  abbrev pub KeptOrOlder : K → Entry V → List (K × Entry V) → Type 0
  KeptOrOlder key entry m =
      (HashMap.get m key ≡ some entry)
      ⊎ ((HashMap.get m key ≡ none) × All (Since entry.last_access) m)

  remove-KeptOrOlder :
      (key : K) (entry : Entry V) (m : List (K × Entry V)) (victim : K × Entry V)
      → IsMap m × KeptOrOlder key entry m
      → oldest m ≡ some victim
      → KeptOrOlder key entry (HashMap.remove victim.0 m)
  remove-KeptOrOlder key entry m (j, w) h least = elim (Bool-cases (e.beq j key)) [
    | inl same ↦
        let there : HashMap.get m j ≡ some w = oldest-get m j w h.0 least in
        elim h.1 [
          | inl kept ↦
              let is_w : w ≡ entry = ground (arith, e.beq_iff j key) in
              inr (
                ground (arith, HashMap.get-remove j key m),
                remove-All (Since entry.last_access) j m
                    (subst (λ z. All (Since z.last_access) m) is_w (oldest_least m j w least)),
              )
          | inr (gone, since) ↦ absurd (ground (arith, e.beq_iff j key))
        ]
    | inr other ↦ elim h.1 [
      | inl kept ↦ inl (ground (arith, HashMap.get-remove j key m))
      | inr (gone, since) ↦ inr (
        ground (arith, HashMap.get-remove j key m),
        remove-All (Since entry.last_access) j m since,
      )
    ]
  ]

  -- If no key occurs twice, an entry is kept by `evict`, or it is removed and all that are left were
  -- accessed at its last access or after.
  pub evict_oldest :
      (max_entries max_bytes : ℕ) (m : List (K × Entry V)) (key : K) (entry : Entry V)
      → IsMap m
      → HashMap.get m key ≡ some entry
      → KeptOrOlder key entry (evict max_entries max_bytes m)
  evict_oldest max_entries max_bytes m key entry map h =
      (evict_rule (λ l. IsMap l × KeptOrOlder key entry l)
        (λ l victim k least.
          (remove-IsMap victim.0 l k.0, remove-KeptOrOlder key entry l victim k least))
        max_entries max_bytes m (map, inl h)).1
