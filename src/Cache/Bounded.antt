-- ===== src/Cache/Bounded.antt =====
-- src/dht_cache.rs: the entries and the limits of the cache.
use nexus_net.Base.HashMap
use nexus_net.Base.{ℕ, ◌≤◌, ◌≡◌, ◌⊎◌, inl, inr, refl, List, [], ◌∷◌, Eq, length, arith}
use nexus_net.Cache.Entries.{
  Entry, Fetched, Limits, modify, with_error, conflict_error, fetched_entry, put_entry, store,
  total_size, judge,
}
use nexus_net.Cache.Evict.{evict_fits}
use nexus_net.Cache.Recency.{IsMap, evict-IsMap, insert-IsMap, remove-IsMap}
use nexus_net.Cache.Stored.{modify-IsMap, length-modify, total_size-modify, Verdict-cases}

module _ {K V : Type 0} ⦃e : Eq K⦄ where
  -- No key twice, at most `max_entries` entries, and at most `max_bytes` unless one entry is larger.
  pub record IsBounded (lim : Limits) (m : List (K × Entry V)) : Type 0 where
    pub distinct : IsMap m
    pub count : length m ≤ lim.max_entries
    pub bytes_of : (total_size m ≤ lim.max_bytes) ⊎ (length m ≤ 1)

  pub put_entry-IsBounded :
      (lim : Limits) (key : K) (entry : Entry V) (m : List (K × Entry V))
      → 1 ≤ lim.max_entries
      → IsBounded lim m
      → IsBounded lim (put_entry lim key entry m)
  unfolding put_entry
  put_entry-IsBounded lim key entry m one h =
      let next = HashMap.insert key entry m in
      let distinct =
        evict-IsMap lim.max_entries lim.max_bytes next (insert-IsMap key entry m h.distinct) in
      elim (evict_fits lim.max_entries lim.max_bytes next) [
        | inl (count, size) ↦ record { distinct = distinct; count = count; bytes_of = inl size }
        | inr single ↦ record {
          distinct = distinct;
          count = omega (arith, one, single);
          bytes_of = inr single;
        }
      ]

  pub modify-IsBounded :
      (lim : Limits) (key : K) (f : Entry V → Entry V) (m : List (K × Entry V))
      → ((v : Entry V) → (f v).size ≡ v.size)
      → IsBounded lim m
      → IsBounded lim (modify key f m)
  modify-IsBounded lim key f m same h = record {
    distinct = modify-IsMap key f m h.distinct;
    count = ground (arith, h.count, length-modify key f m);
    bytes_of = elim h.bytes_of [
      | inl size ↦ inl (ground (arith, total_size-modify key f m same))
      | inr single ↦ inr (ground (arith, length-modify key f m))
    ];
  }

  total_size-remove-le :
      (key : K) (m : List (K × Entry V)) → total_size (HashMap.remove key m) ≤ total_size m
  unfolding HashMap.remove total_size
  total_size-remove-le key [] = omega arith
  total_size-remove-le key ((i, v) ∷ m) = ground (arith, total_size-remove-le key m)

  pub remove-IsBounded :
      (lim : Limits) (key : K) (m : List (K × Entry V))
      → IsBounded lim m
      → IsBounded lim (HashMap.remove key m)
  remove-IsBounded lim key m h = record {
    distinct = remove-IsMap key m h.distinct;
    count = omega (arith, h.count, HashMap.length-remove-le key m);
    bytes_of = elim h.bytes_of [
      | inl size ↦ inl (omega (arith, size, total_size-remove-le key m))
      | inr single ↦ inr (omega (arith, single, HashMap.length-remove-le key m))
    ];
  }

  pub empty-IsBounded : (lim : Limits) → IsBounded lim []
  unfolding total_size
  empty-IsBounded lim = record { distinct = tt; count = omega arith; bytes_of = inr (omega arith) }

  module _ ⦃f : Eq V⦄ where
    pub store-IsBounded :
        (lim : Limits) (key : K) (found : Fetched V) (now : ℕ) (m : List (K × Entry V))
        → 1 ≤ lim.max_entries
        → IsBounded lim m
        → IsBounded lim (store lim key found now m)
    unfolding store
    store-IsBounded lim key found now m one h =
        elim (Verdict-cases (judge (HashMap.get m key) found)) [
          | inl eq ↦ rw (eq, store) (put_entry-IsBounded lim key (fetched_entry found now) m one h)
          | inr (inl eq) ↦ rw (eq, store) h
          | inr (inr eq) ↦
              rw (eq, store)
                (modify-IsBounded lim key (with_error conflict_error now) m (λ v. refl) h)
        ]
