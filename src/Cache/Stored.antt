-- ===== src/Cache/Stored.antt =====
-- src/dht_cache.rs: what `store` makes of the entry of its key.
use nexus_net.Base.HashMap
use nexus_net.Base.{
  ℕ, ◌≤◌, ◌<◌, ◌≡◌, ◌≢◌, ◌⊎◌, inl, inr, refl, none, some, List, [], ◌∷◌, Eq, length, if◌then◌else◌,
  arith, Bool-cases,
}
use nexus_net.Cache.Entries.{
  Entry, Fetched, Limits, Verdict, replace, rollback, conflict, judge, judge_versions, differs,
  modify, store, put_entry, with_error, conflict_error, fetched_entry, total_size,
}
use nexus_net.Cache.Recency.{IsMap, evict_oldest, insert-IsMap}

module _ {K V : Type 0} ⦃e : Eq K⦄ where
  pub get-modify :
      (k j : K) (f : V → V) (m : List (K × V))
      → HashMap.get (modify k f m) j ≡ (
          if e.beq k j
          then elim (HashMap.get m j) [ none ↦ none | some v ↦ some (f v) ]
          else HashMap.get m j)
  unfolding modify HashMap.get
  get-modify k j f [] = ground arith
  get-modify k j f ((i, v) ∷ m) =
      ground (arith, e.beq_iff k j, e.beq_iff i k, e.beq_iff i j, get-modify k j f m)

  pub length-modify : (k : K) (f : V → V) (m : List (K × V)) → length (modify k f m) ≡ length m
  unfolding modify
  length-modify k f [] = refl
  length-modify k f ((i, v) ∷ m) = ground (arith, length-modify k f m)

  pub modify-IsMap : (k : K) (f : V → V) (m : List (K × V)) → IsMap m → IsMap (modify k f m)
  unfolding modify
  modify-IsMap k f [] h = tt
  modify-IsMap k f ((i, v) ∷ m) h = elim (Bool-cases (e.beq i k)) [
    | inl same ↦ rw same (h.0, h.1)
    | inr other ↦
        rw other
          (ground (arith, get-modify k i f m, e.beq_iff k i, e.beq_iff i k), modify-IsMap k f m h.1)
  ]

module _ {K V : Type 0} ⦃e : Eq K⦄ where
  pub total_size-modify :
      (k : K) (f : Entry V → Entry V) (m : List (K × Entry V))
      → ((v : Entry V) → (f v).size ≡ v.size)
      → total_size (modify k f m) ≡ total_size m
  unfolding modify total_size
  total_size-modify k f [] h = refl
  total_size-modify k f ((i, v) ∷ m) h = ground (arith, h v, total_size-modify k f m h)

pub Verdict-cases : (v : Verdict) → (v ≡ replace) ⊎ ((v ≡ rollback) ⊎ (v ≡ conflict))
Verdict-cases replace = inl refl
Verdict-cases rollback = inr (inl refl)
Verdict-cases conflict = inr (inr refl)

module _ {V : Type 0} ⦃f : Eq V⦄ where
  judge_replace :
      (entry : Entry V) (fetched : Fetched V) (old new : ℕ)
      → entry.version ≡ some old
      → fetched.version ≡ some new
      → judge (some entry) fetched ≡ replace
      → old ≤ new
  unfolding judge judge_versions
  judge_replace entry fetched old new h g eq = ground arith

  judge_rollback :
      (entry : Entry V) (fetched : Fetched V) (old new : ℕ)
      → entry.version ≡ some old
      → fetched.version ≡ some new
      → new < old
      → judge (some entry) fetched ≡ rollback
  unfolding judge judge_versions
  judge_rollback entry fetched old new h g lt = ground arith

  judge_conflict :
      (entry : Entry V) (fetched : Fetched V) (version : ℕ) (value : V)
      → entry.version ≡ some version
      → entry.value ≡ some value
      → fetched.version ≡ some version
      → value ≢ fetched.value
      → judge (some entry) fetched ≡ conflict
  unfolding judge judge_versions differs
  judge_conflict entry fetched version value h v g ne =
      ground (arith, f.beq_iff value fetched.value)

module _ {K V : Type 0} ⦃e : Eq K⦄ ⦃f : Eq V⦄ where
  -- A fetched value of an older version than that of the entry changes nothing.
  pub store_rollback :
      (lim : Limits) (key : K) (entry : Entry V) (fetched : Fetched V) (old new now : ℕ)
      (m : List (K × Entry V))
      → HashMap.get m key ≡ some entry
      → entry.version ≡ some old
      → fetched.version ≡ some new
      → new < old
      → store lim key fetched now m ≡ m
  unfolding store
  store_rollback lim key entry fetched old new now m found h g lt =
      ground (arith, judge_rollback entry fetched old new h g lt)

  -- A fetched value of the version of the entry, but with other content, leaves the value that the
  -- entry holds and marks the entry with an error.
  pub store_conflict :
      (lim : Limits) (key : K) (entry : Entry V) (fetched : Fetched V) (version now : ℕ) (value : V)
      (m : List (K × Entry V))
      → HashMap.get m key ≡ some entry
      → entry.version ≡ some version
      → entry.value ≡ some value
      → fetched.version ≡ some version
      → value ≢ fetched.value
      → HashMap.get (store lim key fetched now m) key ≡ some (with_error conflict_error now entry)
  unfolding store
  store_conflict lim key entry fetched version now value m found h v g ne = ground (
    arith,
    judge_conflict entry fetched version value h v g ne,
    get-modify key key (with_error conflict_error now) m,
    e.beq_iff key key,
  )

  put_entry-get :
      (lim : Limits) (key : K) (entry after : Entry V) (m : List (K × Entry V))
      → IsMap m
      → HashMap.get (put_entry lim key entry m) key ≡ some after
      → after ≡ entry
  unfolding put_entry
  put_entry-get lim key entry after m map there =
      elim (evict_oldest lim.max_entries lim.max_bytes (HashMap.insert key entry m) key entry
        (insert-IsMap key entry m map)
        (ground (arith, HashMap.get-insert key key entry m, e.beq_iff key key))) [
          | inl kept ↦ ground arith
          | inr (gone, _) ↦ absurd (ground arith)
        ]

  -- The versions of the fetched values never take an entry back: after store of a versioned value
  -- the entry of its key, if it is still there, has a version that is not below the one it had.
  pub store_monotonic :
      (lim : Limits) (key : K) (entry : Entry V) (fetched : Fetched V) (old new now : ℕ)
      (m : List (K × Entry V)) (after : Entry V)
      → IsMap m
      → HashMap.get m key ≡ some entry
      → entry.version ≡ some old
      → fetched.version ≡ some new
      → HashMap.get (store lim key fetched now m) key ≡ some after
      → (version : ℕ) × (after.version ≡ some version) × (old ≤ version)
  unfolding store
  store_monotonic lim key entry fetched old new now m after map found h g there =
      elim (Verdict-cases (judge (some entry) fetched)) [
        | inl replaced ↦
            let le : old ≤ new = judge_replace entry fetched old new h g replaced in
            let is_new : after ≡ fetched_entry fetched now =
              put_entry-get lim key (fetched_entry fetched now) after m map (ground arith) in
            (new, ground arith, le)
        | inr (inl older) ↦ (old, ground arith, omega arith)
        | inr (inr clash) ↦ (
          old,
          ground (arith, get-modify key key (with_error conflict_error now) m, e.beq_iff key key),
          omega arith,
        )
      ]
