-- ===== src/Cache/Operations.antt =====
-- `DhtCache`: `peek`, `get`, `refresh`, `invalidate`, `invalidate_all` and `run_refresh`,
-- which ends in two steps: no lock covers its comparison of generations and its store.
use nexus_net.Base.HashMap
use nexus_net.Base.HashSet
use nexus_net.Base.{
  ℕ, ◌+◌, ◌%◌, ◌^◌, Bool, not, ◌&&◌, ◌==◌, Option, none, some, List, [], ◌∷◌, ◌++◌, Name, Eq,
  Result, ok, err, if◌then◌else◌,
}
use nexus_net.Cache.Entries.{
  Entry, Fetched, CacheRead, Limits, new_limits, read_from, modify, touched, store, store_missing,
  mark_error,
}

-- `(u64, u64)`: the global generation and that of the key.
abbrev pub Generation : Type 0
Generation = ℕ × ℕ

abbrev pub same_generation : Generation → Generation → Bool
same_generation (g, k) (h, j) = g == h && k == j

-- The texts of `CacheError::Unavailable`.
pub data CacheError : Type 0 where
  cache_invalidated exited_without_result : CacheError
  fetch_failed : Name → CacheError

-- Where a refresh stands: in its fetch, with the generation that it was started in, or after the
-- comparison, about to store what it fetched.
pub data Progress (V : Type 0) : Type 0 where
  fetching : Generation → Progress V
  storing : Result Name (Option (Fetched V)) → Progress V

-- The cache: `inflight` without its channels, and the spawned refreshes.
pub record Cache (K V : Type 0) : Type 0 where
  pub entries : List (K × Entry V)
  pub inflight : List K
  pub global_generation : ℕ
  pub key_generation : List (K × ℕ)
  pub tasks : List (K × Progress V)
  pub limits : Limits

abbrev pub new : {K V : Type 0} → ℕ → ℕ → Cache K V
new max_entries max_bytes = record {
  entries = [];
  inflight = [];
  global_generation = 0;
  key_generation = [];
  tasks = [];
  limits = new_limits max_entries max_bytes;
}

abbrev pub or_zero : Option ℕ → ℕ
or_zero none = 0
or_zero (some n) = n

module _ {K V : Type 0} ⦃e : Eq K⦄ where
  abbrev pub key_generation_of : Cache K V → K → ℕ
  key_generation_of c key = or_zero (HashMap.get c.key_generation key)

  unfoldable pub generation : Cache K V → K → Generation
  generation c key = (c.global_generation, key_generation_of c key)

  -- `entry`, for its effect; what it reads is `HashMap.get c.entries key`.
  unfoldable pub touch : K → ℕ → Cache K V → Cache K V
  touch key now c = record c { entries = modify key (touched now) c.entries }

  unfoldable pub peek : K → ℕ → Cache K V → Cache K V × Option (CacheRead V)
  peek key now c = elim (HashMap.get c.entries key) [
    | none ↦ (c, none)
    | some entry ↦ (touch key now c, some (read_from entry))
  ]

  unfoldable pub ensure_refresh : K → Cache K V → Cache K V
  ensure_refresh key c = if HashSet.contains c.inflight key then c else record c {
    inflight = HashSet.insert key c.inflight;
    tasks = c.tasks ++ (key, fetching (generation c key)) ∷ [];
  }

  -- `get` up to its wait: a cached value, or none if the caller waits for a refresh.
  unfoldable pub get : K → ℕ → Cache K V → Cache K V × Option (CacheRead V)
  get key now c = elim (HashMap.get c.entries key) [
    | none ↦ (ensure_refresh key c, none)
    | some entry ↦ (ensure_refresh key (touch key now c), some (read_from entry))
  ]

  -- `get` after its wait. No outcome: the refresh was dropped.
  unfoldable pub await_get :
      Option (Result CacheError (Unit {0}))
      → K
      → ℕ
      → Cache K V
      → Cache K V × Result CacheError (CacheRead V)
  await_get none key now c = (c, err exited_without_result)
  await_get (some (err error)) key now c = (c, err error)
  await_get (some (ok _)) key now c = elim (HashMap.get c.entries key) [
    | none ↦ (c, err cache_invalidated)
    | some entry ↦ (touch key now c, ok (read_from entry))
  ]

  unfoldable pub invalidate : K → Cache K V → Cache K V
  invalidate key c = record c {
    key_generation = HashMap.insert key ((key_generation_of c key + 1) % 2 ^ 64) c.key_generation;
    entries = HashMap.remove key c.entries;
  }

  unfoldable pub invalidate_all : Cache K V → Cache K V
  invalidate_all c = record c {
    global_generation = (c.global_generation + 1) % 2 ^ 64;
    entries = [];
    key_generation = [];
  }

  -- The deferred part of `run_refresh`: the refresh of the key ends.
  unfoldable pub end_task : K → Cache K V → Cache K V
  end_task key c = record c {
    inflight = HashSet.remove key c.inflight;
    tasks = HashMap.remove key c.tasks;
  }

  -- The last part of `run_refresh`, on what the fetcher returned.
  unfoldable pub settle :
      ⦃f : Eq V⦄
      → K
      → Result Name (Option (Fetched V))
      → ℕ
      → Cache K V
      → Cache K V × Result CacheError (Unit {0})
  settle key (ok (some fetched)) now c =
      (record c { entries = store c.limits key fetched now c.entries }, ok tt)
  settle key (ok none) now c =
      (record c { entries = store_missing c.limits key now c.entries }, ok tt)
  settle key (err error) now c =
      (record c { entries = mark_error key error now c.entries }, err (fetch_failed error))

  -- `run_refresh` when the fetch is done, up to the comparison of the generations: it ends with an
  -- error for those that wait, or goes on.
  unfoldable pub check_refresh :
      K
      → Generation
      → Result Name (Option (Fetched V))
      → Cache K V
      → Cache K V × Option (Result CacheError (Unit {0}))
  check_refresh key started result c =
      if not (same_generation started (generation c key))
      then (end_task key c, some (err cache_invalidated))
      else (record c { tasks = HashMap.insert key (storing result) c.tasks }, none)

  -- The rest of `run_refresh`, with what it sends to those that wait.
  unfoldable pub store_refresh :
      ⦃f : Eq V⦄
      → K
      → Result Name (Option (Fetched V))
      → ℕ
      → Cache K V
      → Cache K V × Result CacheError (Unit {0})
  store_refresh key result now c = let (d, sent) = settle key result now c in (end_task key d, sent)
