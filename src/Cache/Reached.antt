-- ===== src/Cache/Reached.antt =====
-- src/dht_cache.rs: the states that a new cache reaches.
use nexus_net.Base.HashMap
use nexus_net.Base.HashSet
use nexus_net.Base.{
  ℕ, ◌≤◌, ◌≡◌, inl, inr, refl, true, false, ◌||◌, Option, none, some, List, [], ◌∷◌, ◌++◌, Name, Eq,
  arith, Option-cases, Bool-cases, Result, ok, err,
}
use nexus_net.Cache.Entries.{
  Fetched, new_limits, touched, with_error, missing_entry, store_missing, mark_error,
}
use nexus_net.Cache.Recency.{IsMap, remove-IsMap, insert-IsMap}
use nexus_net.Cache.Operations.{
  Cache, CacheError, Generation, Progress, fetching, storing, generation, same_generation, touch,
  peek, get, await_get, ensure_refresh, invalidate, invalidate_all, end_task, settle, check_refresh,
  store_refresh, new,
}
use nexus_net.Cache.Runs.{
  Op, on_peek, on_get, on_refresh, on_invalidate, on_drop, on_await, on_clear, on_fetched,
  on_stored, end_fetch, end_store, perform, run_ops,
}
use nexus_net.Cache.Bounded.{
  IsBounded, put_entry-IsBounded, modify-IsBounded, remove-IsBounded, empty-IsBounded,
  store-IsBounded,
}

module _ {K V : Type 0} ⦃e : Eq K⦄ where
  contains_key-insert :
      (k j : K) (v : V) (m : List (K × V))
      → HashMap.contains_key m k ≡ true
      → HashMap.contains_key (HashMap.insert k v m) j ≡ HashMap.contains_key m j
  contains_key-insert k j v m h = ground (arith, HashMap.get-insert k j v m, e.beq_iff k j)

  contains_key-append_one :
      (k j : K) (v : V) (m : List (K × V))
      → HashMap.contains_key (m ++ (k, v) ∷ []) j ≡ (HashMap.contains_key m j || e.beq k j)
  unfolding HashMap.get
  contains_key-append_one k j v [] = ground arith
  contains_key-append_one k j v ((i, w) ∷ m) = ground (arith, contains_key-append_one k j v m)

  append_one-IsMap :
      (k : K) (v : V) (m : List (K × V))
      → HashMap.contains_key m k ≡ false
      → IsMap m
      → IsMap (m ++ (k, v) ∷ [])
  unfolding HashMap.get
  append_one-IsMap k v [] free h = (refl, tt)
  append_one-IsMap k v ((i, w) ∷ m) free h = (
    ground (arith, contains_key-append_one k i v m, e.beq_iff i k, e.beq_iff k i),
    append_one-IsMap k v m (ground arith) h.1,
  )

module _ {K V : Type 0} ⦃e : Eq K⦄ where
  -- One refresh for each key that is in flight, and no other.
  pub record IsWell (c : Cache K V) : Type 0 where
    pub one : 1 ≤ c.limits.max_entries
    pub bounded : IsBounded c.limits c.entries
    pub single : IsMap c.tasks
    pub flights : (key : K) → HashSet.contains c.inflight key ≡ HashMap.contains_key c.tasks key

  ensure_refresh-IsWell : (key : K) (c : Cache K V) → IsWell c → IsWell (ensure_refresh key c)
  unfolding ensure_refresh
  ensure_refresh-IsWell key c h = elim (Bool-cases (HashSet.contains c.inflight key)) [
    | inl there ↦ rw (there, ensure_refresh) h
    | inr free ↦
        let next = fetching (generation c key) in
        rw (free, ensure_refresh)
          (record {
            one = h.one;
            bounded = h.bounded;
            single = append_one-IsMap key next c.tasks (ground (arith, h.flights key)) h.single;
            flights = λ j. ground (
              arith,
              HashSet.contains-insert key j c.inflight,
              contains_key-append_one key j next c.tasks,
              e.beq_iff key j,
              h.flights j,
            );
          })
  ]

  touch-IsWell : (key : K) (now : ℕ) (c : Cache K V) → IsWell c → IsWell (touch key now c)
  unfolding touch
  touch-IsWell key now c h = record {
    one = h.one;
    bounded = modify-IsBounded c.limits key (touched now) c.entries (λ v. refl) h.bounded;
    single = h.single;
    flights = h.flights;
  }

  end_task-IsWell : (key : K) (c : Cache K V) → IsWell c → IsWell (end_task key c)
  unfolding end_task
  end_task-IsWell key c h = record {
    one = h.one;
    bounded = h.bounded;
    single = remove-IsMap key c.tasks h.single;
    flights = λ j. ground (
      arith,
      HashSet.contains-remove key j c.inflight,
      HashMap.get-remove key j c.tasks,
      h.flights j,
    );
  }

  peek-IsWell : (key : K) (now : ℕ) (c : Cache K V) → IsWell c → IsWell (peek key now c).0
  unfolding peek
  peek-IsWell key now c h = elim (Option-cases (HashMap.get c.entries key)) [
    | inl none' ↦ rw (none', peek) h
    | inr (entry, some') ↦ rw (some', peek) (touch-IsWell key now c h)
  ]

  get-IsWell : (key : K) (now : ℕ) (c : Cache K V) → IsWell c → IsWell (get key now c).0
  unfolding get
  get-IsWell key now c h = elim (Option-cases (HashMap.get c.entries key)) [
    | inl none' ↦ rw (none', get) (ensure_refresh-IsWell key c h)
    | inr (entry, some') ↦
        rw (some', get) (ensure_refresh-IsWell key (touch key now c) (touch-IsWell key now c h))
  ]

  await_get-IsWell :
      (outcome : Option (Result CacheError (Unit {0}))) (key : K) (now : ℕ) (c : Cache K V)
      → IsWell c
      → IsWell (await_get outcome key now c).0
  unfolding await_get
  await_get-IsWell none key now c h = h
  await_get-IsWell (some (err error)) key now c h = h
  await_get-IsWell (some (ok done)) key now c h = elim (Option-cases (HashMap.get c.entries key)) [
    | inl none' ↦ rw (none', await_get) h
    | inr (entry, some') ↦ rw (some', await_get) (touch-IsWell key now c h)
  ]

  module _ ⦃f : Eq V⦄ where
    settle-IsWell :
        (key : K) (result : Result Name (Option (Fetched V))) (now : ℕ) (c : Cache K V)
        → IsWell c
        → IsWell (settle key result now c).0
    unfolding settle store_missing mark_error
    settle-IsWell key (ok (some found)) now c h = record {
      one = h.one;
      bounded = store-IsBounded c.limits key found now c.entries h.one h.bounded;
      single = h.single;
      flights = h.flights;
    }
    settle-IsWell key (ok none) now c h = record {
      one = h.one;
      bounded = put_entry-IsBounded c.limits key (missing_entry now) c.entries h.one h.bounded;
      single = h.single;
      flights = h.flights;
    }
    settle-IsWell key (err error) now c h = record {
      one = h.one;
      bounded =
          modify-IsBounded c.limits key (with_error error now) c.entries (λ v. refl) h.bounded;
      single = h.single;
      flights = h.flights;
    }

    check_refresh-IsWell :
        (key : K) (started : Generation) (result : Result Name (Option (Fetched V))) (c : Cache K V)
        → HashMap.contains_key c.tasks key ≡ true
        → IsWell c
        → IsWell (check_refresh key started result c).0
    unfolding check_refresh
    check_refresh-IsWell key started result c runs h =
        elim (Bool-cases (same_generation started (generation c key))) [
          | inr other ↦ rw (other, check_refresh) (end_task-IsWell key c h)
          | inl same ↦
              rw (same, check_refresh)
                (record {
                  one = h.one;
                  bounded = h.bounded;
                  single = insert-IsMap key (storing result) c.tasks h.single;
                  flights = λ j.
                      ground (
                        arith,
                        h.flights j,
                        contains_key-insert key j (storing result) c.tasks runs,
                      );
                })
        ]

    store_refresh-IsWell :
        (key : K) (result : Result Name (Option (Fetched V))) (now : ℕ) (c : Cache K V)
        → IsWell c
        → IsWell (store_refresh key result now c).0
    unfolding store_refresh
    store_refresh-IsWell key result now c h =
        end_task-IsWell key (settle key result now c).0 (settle-IsWell key result now c h)

    end_fetch-IsWell :
        (progress : Option (Progress V)) (key : K) (result : Result Name (Option (Fetched V)))
        (c : Cache K V)
        → HashMap.get c.tasks key ≡ progress
        → IsWell c
        → IsWell (end_fetch progress key result c)
    end_fetch-IsWell none key result c is h = h
    end_fetch-IsWell (some (storing held)) key result c is h = h
    end_fetch-IsWell (some (fetching started)) key result c is h =
        check_refresh-IsWell key started result c (ground arith) h

    end_store-IsWell :
        (progress : Option (Progress V)) (key : K) (now : ℕ) (c : Cache K V)
        → IsWell c
        → IsWell (end_store progress key now c)
    end_store-IsWell none key now c h = h
    end_store-IsWell (some (fetching started)) key now c h = h
    end_store-IsWell (some (storing result)) key now c h = store_refresh-IsWell key result now c h

    perform-IsWell : (op : Op K V) (now : ℕ) (c : Cache K V) → IsWell c → IsWell (perform op now c)
    unfolding perform invalidate invalidate_all
    perform-IsWell (on_peek key) now c h = peek-IsWell key now c h
    perform-IsWell (on_get key) now c h = get-IsWell key now c h
    perform-IsWell (on_refresh key) now c h = ensure_refresh-IsWell key c h
    perform-IsWell (on_invalidate key) now c h = record {
      one = h.one;
      bounded = remove-IsBounded c.limits key c.entries h.bounded;
      single = h.single;
      flights = h.flights;
    }
    perform-IsWell (on_drop key) now c h = end_task-IsWell key c h
    perform-IsWell (on_await outcome key) now c h = await_get-IsWell outcome key now c h
    perform-IsWell on_clear now c h = record {
      one = h.one;
      bounded = empty-IsBounded c.limits;
      single = h.single;
      flights = h.flights;
    }
    perform-IsWell (on_fetched key result) now c h =
        end_fetch-IsWell (HashMap.get c.tasks key) key result c refl h
    perform-IsWell (on_stored key) now c h = end_store-IsWell (HashMap.get c.tasks key) key now c h

    run_ops-IsWell : (ops : List (Op K V × ℕ)) (c : Cache K V) → IsWell c → IsWell (run_ops ops c)
    unfolding run_ops
    run_ops-IsWell [] c h = h
    run_ops-IsWell ((op, now) ∷ ops) c h =
        run_ops-IsWell ops (perform op now c) (perform-IsWell op now c h)

    -- Whatever calls are made of a new cache, and in whatever order its refreshes end, it holds
    -- no key twice, at most max_entries entries (one if that is 0), at most max_bytes bytes (one
    -- if that is 0) or a single entry, and exactly one refresh runs for each key in flight.
    pub run_new-IsWell :
        (ops : List (Op K V × ℕ)) (max_entries max_bytes : ℕ)
        → IsWell (run_ops ops (new max_entries max_bytes))
    unfolding HashSet.contains HashMap.get
    run_new-IsWell ops max_entries max_bytes =
        run_ops-IsWell ops (new max_entries max_bytes) (record {
          one = ground arith;
          bounded = empty-IsBounded (new_limits max_entries max_bytes);
          single = tt;
          flights = λ key. refl;
        })
