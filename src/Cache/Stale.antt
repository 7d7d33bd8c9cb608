-- ===== src/Cache/Stale.antt =====
-- src/dht_cache.rs: the generations, and a refresh that ends after an invalidation.
use nexus_net.Base.HashMap
use nexus_net.Base.{
  ℕ, suc, zero, ◌+◌, ◌%◌, ◌^◌, ◌≤◌, ◌<◌, ◌≡◌, refl, false, Option, none, some, List, [], ◌∷◌, Name,
  Eq, length, if◌then◌else◌, arith, Result, err, subst, sym,
}
use nexus_net.Cache.Entries.{Fetched}
use nexus_net.Cache.Operations.{
  Cache, cache_invalidated, Generation, generation, key_generation_of, same_generation, touch, peek,
  get, await_get, ensure_refresh, invalidate, invalidate_all, end_task, settle, check_refresh,
  store_refresh, Progress, fetching, storing,
}
use nexus_net.Cache.Runs.{
  Op, on_peek, on_get, on_refresh, on_invalidate, on_drop, on_await, on_clear, on_fetched,
  on_stored, perform, end_fetch, end_store, run_ops,
}

-- The generations are those of `u64`.
abbrev pub InRange : Generation → Type 0
InRange g = (g.0 < 2 ^ 64) × (g.1 < 2 ^ 64)

-- The generation `now` is `all` invalidations of everything after `before`, or, without one, `own`
-- invalidations of the key.
pub record Drift (before now : Generation) (all own : ℕ) : Type 0 where
  pub global : now.0 ≡ (before.0 + all) % 2 ^ 64
  pub of_key : all ≡ 0 → now.1 ≡ (before.1 + own) % 2 ^ 64

Drift-differs :
    (before now : Generation) (all own : ℕ)
    → InRange before
    → Drift before now all own
    → all < 2 ^ 64
    → own < 2 ^ 64
    → 1 ≤ all + own
    → same_generation before now ≡ false
Drift-differs before now zero own range h few_all few_own some' =
    let moved : now.1 ≡ (before.1 + own) % 2 ^ 64 = h.of_key refl in ground (arith, range)
Drift-differs before now (suc all) own range h few_all few_own some' =
    let moved : now.0 ≡ (before.0 + suc all) % 2 ^ 64 = h.global in ground (arith, range)

module _ {K V : Type 0} ⦃e : Eq K⦄ ⦃f : Eq V⦄ where
  -- How many invalidations of everything, and of the key, a call is.
  abbrev pub clears : Op K V → ℕ
  clears on_clear = 1
  clears _ = 0

  abbrev pub drops : K → Op K V → ℕ
  drops key (on_invalidate k) = if e.beq k key then 1 else 0
  drops key _ = 0

  abbrev pub all_clears : List (Op K V × ℕ) → ℕ
  all_clears [] = 0
  all_clears ((op, now) ∷ ops) = clears op + all_clears ops

  abbrev pub all_drops : K → List (Op K V × ℕ) → ℕ
  all_drops key [] = 0
  all_drops key ((op, now) ∷ ops) = drops key op + all_drops key ops

  generation-end_fetch :
      (key : K) (progress : Option (Progress V)) (k : K) (result : Result Name (Option (Fetched V)))
      (c : Cache K V)
      → generation (end_fetch progress k result c) key ≡ generation c key
  unfolding check_refresh end_task generation
  generation-end_fetch key none k result c = refl
  generation-end_fetch key (some (storing held)) k result c = refl
  generation-end_fetch key (some (fetching started)) k result c = ground arith

  generation-end_store :
      (key : K) (progress : Option (Progress V)) (k : K) (now : ℕ) (c : Cache K V)
      → generation (end_store progress k now c) key ≡ generation c key
  unfolding store_refresh settle end_task generation
  generation-end_store key none k now c = refl
  generation-end_store key (some (fetching started)) k now c = refl
  generation-end_store key (some (storing result)) k now c = ground arith

  generation-perform :
      (key : K) (op : Op K V) (now : ℕ) (c : Cache K V)
      → clears op ≡ 0
      → drops key op ≡ 0
      → generation (perform op now c) key ≡ generation c key
  unfolding perform peek get await_get invalidate invalidate_all check_refresh store_refresh settle
      end_task ensure_refresh touch generation
  generation-perform key (on_peek k) now c h d = ground arith
  generation-perform key (on_get k) now c h d = ground arith
  generation-perform key (on_refresh k) now c h d = ground arith
  generation-perform key (on_invalidate k) now c h d =
      ground
        (arith, HashMap.get-insert k key ((key_generation_of c k + 1) % 2 ^ 64) c.key_generation)
  generation-perform key (on_drop k) now c h d = ground arith
  generation-perform key (on_await outcome k) now c h d = ground arith
  generation-perform key on_clear now c h d = absurd (ground arith)
  generation-perform key (on_fetched k result) now c h d =
      generation-end_fetch key (HashMap.get c.tasks k) k result c
  generation-perform key (on_stored k) now c h d =
      generation-end_store key (HashMap.get c.tasks k) k now c

  Drift-still :
      (key : K) (op : Op K V) (now : ℕ) (c : Cache K V) (before : Generation) (all own : ℕ)
      → clears op ≡ 0
      → drops key op ≡ 0
      → Drift before (generation c key) all own
      → Drift before (generation (perform op now c) key) (all + clears op) (own + drops key op)
  Drift-still key op now c before all own no_clear no_drop h =
      let same = generation-perform key op now c no_clear no_drop in
      subst (λ g. Drift before g (all + clears op) (own + drops key op)) (sym same)
        (record {
          global = ground (arith, h.global, no_clear);
          of_key = λ zero'. ground (arith, h.of_key, no_drop);
        })

  Drift-perform :
      (key : K) (op : Op K V) (now : ℕ) (c : Cache K V) (before : Generation) (all own : ℕ)
      → Drift before (generation c key) all own
      → Drift before (generation (perform op now c) key) (all + clears op) (own + drops key op)
  unfolding perform invalidate invalidate_all generation
  Drift-perform key (on_invalidate k) now c before all own h = record {
    global = ground (arith, h.global);
    of_key = λ zero'. ground (
      arith,
      h.of_key,
      e.beq_iff k key,
      HashMap.get-insert k key ((key_generation_of c k + 1) % 2 ^ 64) c.key_generation,
    );
  }
  Drift-perform key on_clear now c before all own h = record {
    global = ground (arith, h.global);
    of_key = λ zero'. absurd (omega (arith, zero'));
  }
  Drift-perform key (on_peek k) now c before all own h =
      Drift-still key (on_peek k) now c before all own refl refl h
  Drift-perform key (on_get k) now c before all own h =
      Drift-still key (on_get k) now c before all own refl refl h
  Drift-perform key (on_refresh k) now c before all own h =
      Drift-still key (on_refresh k) now c before all own refl refl h
  Drift-perform key (on_drop k) now c before all own h =
      Drift-still key (on_drop k) now c before all own refl refl h
  Drift-perform key (on_await outcome k) now c before all own h =
      Drift-still key (on_await outcome k) now c before all own refl refl h
  Drift-perform key (on_fetched k result) now c before all own h =
      Drift-still key (on_fetched k result) now c before all own refl refl h
  Drift-perform key (on_stored k) now c before all own h =
      Drift-still key (on_stored k) now c before all own refl refl h

  Drift-run :
      (key : K) (ops : List (Op K V × ℕ)) (c : Cache K V) (before : Generation) (all own : ℕ)
      → Drift before (generation c key) all own
      → Drift before
          (generation (run_ops ops c) key)
          (all + all_clears ops)
          (own + all_drops key ops)
  unfolding run_ops
  Drift-run key [] c before all own h = record {
    global = ground (arith, h.global);
    of_key = λ zero'. ground (arith, h.of_key);
  }
  Drift-run key ((op, now) ∷ ops) c before all own h =
      let rest =
        Drift-run key ops (perform op now c) before (all + clears op) (own + drops key op)
          (Drift-perform key op now c before all own h) in
      record { global = ground (arith, rest.global); of_key = λ zero'. ground (arith, rest.of_key) }

  all_clears-le : (ops : List (Op K V × ℕ)) → all_clears ops ≤ length ops
  all_clears-le [] = omega arith
  all_clears-le ((on_peek k, now) ∷ ops) = omega (arith, all_clears-le ops)
  all_clears-le ((on_get k, now) ∷ ops) = omega (arith, all_clears-le ops)
  all_clears-le ((on_refresh k, now) ∷ ops) = omega (arith, all_clears-le ops)
  all_clears-le ((on_invalidate k, now) ∷ ops) = omega (arith, all_clears-le ops)
  all_clears-le ((on_drop k, now) ∷ ops) = omega (arith, all_clears-le ops)
  all_clears-le ((on_await outcome k, now) ∷ ops) = omega (arith, all_clears-le ops)
  all_clears-le ((on_clear, now) ∷ ops) = omega (arith, all_clears-le ops)
  all_clears-le ((on_fetched k result, now) ∷ ops) = omega (arith, all_clears-le ops)
  all_clears-le ((on_stored k, now) ∷ ops) = omega (arith, all_clears-le ops)

  drops-le : (key : K) (op : Op K V) → drops key op ≤ 1
  drops-le key (on_invalidate k) = ground arith
  drops-le key (on_peek k) = omega arith
  drops-le key (on_get k) = omega arith
  drops-le key (on_refresh k) = omega arith
  drops-le key (on_drop k) = omega arith
  drops-le key (on_await outcome k) = omega arith
  drops-le key on_clear = omega arith
  drops-le key (on_fetched k result) = omega arith
  drops-le key (on_stored k) = omega arith

  all_drops-le : (key : K) (ops : List (Op K V × ℕ)) → all_drops key ops ≤ length ops
  all_drops-le key [] = omega arith
  all_drops-le key ((op, now) ∷ ops) = omega (arith, drops-le key op, all_drops-le key ops)

  -- A refresh of a key that began before an invalidation of the key, or of everything, and whose fetch
  -- ends after it, ends at its comparison of the generations: it stores nothing, and those who wait
  -- for it get an error, if fewer than 2 ^ 64 calls of the cache came in between. (An invalidation
  -- between the comparison and the store is not among them.)
  pub stale_refresh :
      (key : K) (result : Result Name (Option (Fetched V))) (ops : List (Op K V × ℕ))
      (c : Cache K V)
      → InRange (generation c key)
      → length ops < 2 ^ 64
      → 1 ≤ all_clears ops + all_drops key ops
      → check_refresh key (generation c key) result (run_ops ops c)
        ≡ (end_task key (run_ops ops c), some (err cache_invalidated))
  unfolding check_refresh
  stale_refresh key result ops c range few some' =
      let start : Drift (generation c key) (generation c key) 0 0 = record {
        global = ground (arith, range);
        of_key = λ zero'. ground (arith, range);
      } in
      let drift = Drift-run key ops c (generation c key) 0 0 start in
      let other =
        Drift-differs (generation c key) (generation (run_ops ops c) key) (0 + all_clears ops)
          (0 + all_drops key ops) range drift (omega (arith, few, all_clears-le ops))
          (omega (arith, few, all_drops-le key ops)) (omega (arith, some')) in
      ground arith
