-- ===== src/Command/Same.antt =====
-- src/controller/command.rs: `AddKey` in the DHT worker against `cmd_add_key`.
use nexus_net.Base.{
  ℕ, ◌≡◌, refl, Bool, true, false, Option, none, some, List, [], ◌∷◌, ◌++◌, Name, bytes, ok, err,
  if◌then◌else◌, length, arith, inl, inr, select,
}
use mathlib.Core.List.{append-nil}
use mathlib.Core.Path.{sym, ap, ◌∙◌}
use nexus_net.Swarm.Peers.{starts_with}
use nexus_net.Command.Keys.{check_compat_record_size}
use nexus_net.Command.Permitted.{check_key-cases}
use nexus_net.Command.Writes.{
  Call, put_record, invalidate_record, invalidate_providers, invalidate_auth, Net, Ran, ◌>=>◌,
  with_context, invalidate_record_key, put, check_key, add_value, cmd_add_key, worker_add_value,
  worker_add_key,
}

-- All calls but the invalidation of the providers of a key.
abbrev pub keeps_providers : Call → Bool
keeps_providers (invalidate_providers key) = false
keeps_providers call = true

-- The same result, by the calls without invalidations of providers.
pub record IsSame {A : Type 0} (worker inline : Ran A) : Type 0 where
  pub result : worker.0 ≡ inline.0
  pub calls : worker.1 ≡ select keeps_providers inline.1

select-append :
    (xs ys : List Call)
    → select keeps_providers (xs ++ ys) ≡ select keeps_providers xs ++ select keeps_providers ys
select-append [] ys = refl
select-append (x ∷ xs) ys = ground (arith, select-append xs ys)

then-IsSame :
    {A : Type 0} (r r' : Ran (Unit {0})) (next next' : Ran A)
    → IsSame r r'
    → IsSame next next'
    → IsSame (r >=> next) (r' >=> next')
then-IsSame (ok done, calls) (ok done', calls') next next' h g = record {
  result = g.result;
  calls = ground (arith, h.calls, g.calls, select-append calls' next'.1);
}
then-IsSame (err e, calls) (err e', calls') next next' h g = record {
  result = ground (arith, h.result);
  calls = h.calls;
}
then-IsSame (ok done, calls) (err e', calls') next next' h g = absurd (ground (arith, h.result))
then-IsSame (err e, calls) (ok done, calls') next next' h g = absurd (ground (arith, h.result))

-- A step that does nothing.
idle-IsSame : (r r' : Ran (Unit {0})) → IsSame r r' → IsSame r (r' >=> (ok tt, []))
idle-IsSame r (ok done, calls) h = record {
  result = h.result;
  calls = h.calls ∙ ap (select keeps_providers) (sym (append-nil calls));
}
idle-IsSame r (err e, calls) h = h

module _ (net : Net) (max : ℕ) where
  stored-IsSame :
      (key : Name) (value : List ℕ)
      → IsSame
          ((check_compat_record_size (length value) max, []) >=> put net max key value)
          ((check_compat_record_size (length value) max, []) >=> put net max key value)
  unfolding put
  stored-IsSame key value =
      let check : Ran (Unit {0}) = (check_compat_record_size (length value) max, []) in
      let stored : Ran (Unit {0}) = (
        with_context (bytes "put_record failed: ") (net.put key value),
        put_record key value ∷ [],
      ) in
      then-IsSame check check stored stored (record { result = refl; calls = refl })
        (record { result = refl; calls = refl })

  dropped-IsSame :
      (key : Name)
      → IsSame {A = Unit {0}}
          (
            ok tt,
            invalidate_record key
                ∷ (if starts_with key (bytes "/oahd/auth/") then invalidate_auth ∷ [] else []),
          )
          (ok tt, invalidate_record_key key)
  unfolding invalidate_record_key
  dropped-IsSame key = record { result = refl; calls = ground arith }

  value-IsSame :
      (key : Name) (value : Option (List ℕ))
      → IsSame (worker_add_value net max key value) (add_value net max key value false)
  unfolding worker_add_value add_value
  value-IsSame key none = record { result = refl; calls = refl }
  value-IsSame key (some value) =
      let stored : Ran (Unit {0}) =
        (check_compat_record_size (length value) max, []) >=> put net max key value in
      let dropped : Ran (Unit {0}) = (
        ok tt,
        invalidate_record key
            ∷ (if starts_with key (bytes "/oahd/auth/") then invalidate_auth ∷ [] else []),
      ) in
      let dropped' : Ran (Unit {0}) = (ok tt, invalidate_record_key key) in
      let added : Ran (List ℕ) = (ok (net.added key), []) in
      then-IsSame (stored >=> dropped) ((stored >=> dropped') >=> (ok tt, [])) added added
        (idle-IsSame (stored >=> dropped) (stored >=> dropped') (
          then-IsSame stored stored dropped dropped' (stored-IsSame key value)
            (dropped-IsSame key)))
        (record { result = refl; calls = refl })

  check_key-IsSame : (key : Name) → IsSame (check_key net max key) (check_key net max key)
  check_key-IsSame key = elim (check_key-cases net max key) [
    | inl (good, allowed) ↦ rw good (record { result = refl; calls = refl })
    | inr (e, bad) ↦ rw bad (record { result = refl; calls = refl })
  ]

  -- A key that is added without `providing` by a worker gives the same result as on the event loop, by
  -- the same calls in the same order, except that the worker leaves the cached providers of the key.
  pub worker_add_key-IsSame :
      (key : Name) (value : Option (List ℕ))
      → IsSame (worker_add_key net max key value false) (cmd_add_key net max key value false)
  unfolding worker_add_key cmd_add_key
  worker_add_key-IsSame key value =
      then-IsSame (check_key net max key) (check_key net max key)
        (worker_add_value net max key value) (add_value net max key value false)
        (check_key-IsSame key) (value-IsSame key value)
