-- ===== src/Tests/Cache.antt =====
-- src/dht_cache.rs at concrete inputs.
use nexus_net.Base.HashMap
use nexus_net.Base.{ℕ, ◌≡◌, ◌≤◌, refl, none, some, List, [], ◌∷◌, ok, err, arith, nat_eq}
use nexus_net.Cache.Entries.{
  Entry, Fetched, Limits, new_limits, total_size, evict, evict_round, store, judge, judge_versions,
  put_entry, older, evict_loop, is_over, oldest,
}
use nexus_net.Cache.Operations.{Cache, new, generation, check_refresh, end_task, cache_invalidated}
use nexus_net.Cache.Runs.{Op, on_get, on_refresh, on_invalidate, on_fetched, on_stored, run_ops}
use nexus_net.Cache.Evict.{evict_ends}
use nexus_net.Cache.Recency.{KeptOrOlder, evict_oldest}
use nexus_net.Cache.Stored.{store_monotonic}
use nexus_net.Cache.Reached.{IsWell, run_new-IsWell}
use nexus_net.Cache.Stale.{stale_refresh}

-- A value of 40 bytes.
abbrev entry : ℕ → ℕ → ℕ → Entry ℕ
entry value version last_access = record {
  value = some value;
  version = some version;
  last_error = none;
  last_access = last_access;
  size = 40;
}

abbrev three : List (ℕ × Entry ℕ)
three = (1, entry 11 1 7) ∷ (2, entry 22 4 3) ∷ (3, entry 33 1 9) ∷ []

abbrev limits : Limits
limits = new_limits 5 100

abbrev found : ℕ → ℕ → Fetched ℕ
found value version = record { value = value; version = some version; size = 40 }

evict_ends_example : evict_round 2 100 (evict 2 100 three) ≡ none
evict_ends_example = evict_ends 2 100 three

evict_oldest_example : KeptOrOlder 2 (entry 22 4 3) (evict 2 100 three)
unfolding HashMap.get
evict_oldest_example = evict_oldest 2 100 three 2 (entry 22 4 3) (refl, (refl, (refl, tt))) refl

-- A new version of the content replaces the old one.
stored : HashMap.get (store limits 2 (found 50 6) 20 three) 2 ≡ some (entry 50 6 20)
unfolding HashMap.get store judge judge_versions put_entry evict evict_loop evict_round is_over
    HashMap.insert HashMap.remove total_size oldest older
stored = refl

store_monotonic_example : (version : ℕ) × (some 6 ≡ some version) × (4 ≤ version)
unfolding HashMap.get
store_monotonic_example =
    store_monotonic limits 2 (entry 22 4 3) (found 50 6) 4 6 20 three (entry 50 6 20)
      (refl, (refl, (refl, tt))) refl refl refl stored

-- A refresh is started and compares generations, its key is invalidated, and the refresh stores.
abbrev calls : List (Op ℕ ℕ × ℕ)
calls =
    (on_get 1, 10)
    ∷ (on_fetched 1 (ok (some (found 50 1))), 11)
    ∷ (on_invalidate 1, 12)
    ∷ (on_stored 1, 13)
    ∷ []

run_new-IsWell_example : IsWell (run_ops calls (new 2 100))
run_new-IsWell_example = run_new-IsWell calls 2 100

abbrev empty : Cache ℕ ℕ
empty = new 2 100

abbrev between : List (Op ℕ ℕ × ℕ)
between = (on_refresh 1, 10) ∷ (on_invalidate 1, 11) ∷ []

stale_refresh_example :
    check_refresh 1 (generation empty 1) (ok (some (found 50 1))) (run_ops between empty)
    ≡ (end_task 1 (run_ops between empty), some (err cache_invalidated))
unfolding generation HashMap.get
stale_refresh_example =
    stale_refresh 1 (ok (some (found 50 1))) between empty (omega arith, omega arith) (omega arith)
      (omega arith)
