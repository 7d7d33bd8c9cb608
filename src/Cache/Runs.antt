-- ===== src/Cache/Runs.antt =====
-- The calls of the cache in the order in which they take effect, the two last steps of its refreshes
-- among them: the comparison of generations and the store. A refresh that is dropped ends without a
-- result.
use nexus_net.Base.HashMap
use nexus_net.Base.{ℕ, Option, some, List, [], ◌∷◌, Name, Eq, Result}
use nexus_net.Cache.Entries.{Fetched}
use nexus_net.Cache.Operations.{
  Cache, CacheError, Progress, fetching, storing, peek, get, await_get, ensure_refresh, invalidate,
  invalidate_all, end_task, check_refresh, store_refresh,
}

pub data Op (K V : Type 0) : Type 0 where
  on_peek on_get on_refresh on_invalidate on_drop on_stored : K → Op K V
  on_await : Option (Result CacheError (Unit {0})) → K → Op K V
  on_clear : Op K V
  on_fetched : K → Result Name (Option (Fetched V)) → Op K V

module _ {K V : Type 0} ⦃e : Eq K⦄ ⦃f : Eq V⦄ where
  -- The fetch of a key ends, if a refresh of it is in its fetch.
  abbrev pub end_fetch :
      Option (Progress V) → K → Result Name (Option (Fetched V)) → Cache K V → Cache K V
  end_fetch (some (fetching started)) key result c = (check_refresh key started result c).0
  end_fetch progress key result c = c

  -- The store of a key, if a refresh of it is about to store.
  abbrev pub end_store : Option (Progress V) → K → ℕ → Cache K V → Cache K V
  end_store (some (storing result)) key now c = (store_refresh key result now c).0
  end_store progress key now c = c

  unfoldable pub perform : Op K V → ℕ → Cache K V → Cache K V
  perform (on_peek key) now c = (peek key now c).0
  perform (on_get key) now c = (get key now c).0
  perform (on_refresh key) now c = ensure_refresh key c
  perform (on_invalidate key) now c = invalidate key c
  perform (on_drop key) now c = end_task key c
  perform (on_await outcome key) now c = (await_get outcome key now c).0
  perform on_clear now c = invalidate_all c
  perform (on_fetched key result) now c = end_fetch (HashMap.get c.tasks key) key result c
  perform (on_stored key) now c = end_store (HashMap.get c.tasks key) key now c

  unfoldable pub run_ops : List (Op K V × ℕ) → Cache K V → Cache K V
  run_ops [] c = c
  run_ops ((op, now) ∷ ops) c = run_ops ops (perform op now c)
