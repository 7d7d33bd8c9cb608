-- ===== src/Command/Permitted.antt =====
-- src/controller/command.rs: which keys a backend can write, and what a write invalidates.
use nexus_net.Base.{
  ℕ, ◌≡◌, ◌≢◌, ◌≤◌, ◌||◌, ◌⊎◌, refl, Bool, true, false, Option, none, some, List, [], ◌∷◌, Name,
  bytes, ok, err, if◌then◌else◌, length, name_beq_iff, arith, All, append-All, Bool-cases, inl, inr,
  ltb,
}
use mathlib.Core.Option.{some-injective}
use nexus_net.Sidecar.Message.{Message, add_key, remove_key}
use nexus_net.Swarm.Peers.{starts_with}
use nexus_net.Command.Keys.{is_writable_key, can_run_in_dht_worker, check_compat_record_size}
use nexus_net.Command.Writes.{
  Call, put_record, start_providing, stop_providing, remove_record, invalidate_record,
  invalidate_auth, Net, Ran, ◌>=>◌, invalidate_record_key, put, start_providing_record, check_key,
  add_value, cmd_add_key, worker_add_value, worker_add_key, cmd_remove_key, run_write,
  stop_provider, drop_record, check_parts,
}

-- A key of the authorization or of a service, but not the list of types.
pub record IsOpen (key : Name) : Type 0 where
  pub namespace :
      (starts_with key (bytes "/oahd/auth/") || starts_with key (bytes "/oahd/service/")) ≡ true
  pub not_types : key ≢ bytes "/oahd/service/types"
  pub not_bootstrap : key ≢ bytes "/oahd/bootstrap"

is_writable_key-IsOpen : (key : Name) → is_writable_key key ≡ true → IsOpen key
unfolding is_writable_key
is_writable_key-IsOpen key h = record {
  namespace = ground (arith, h);
  not_types = λ same. ground (arith, h, same, name_beq_iff key (bytes "/oahd/service/types"));
  not_bootstrap = λ same. ground (arith, h, same, name_beq_iff key (bytes "/oahd/bootstrap"));
}

module _ (max : ℕ) where
  -- A write to an allowed key, of a value that is not too large; caches may always be invalidated.
  abbrev pub IsPermitted : Call → Type 0
  IsPermitted (put_record key value) = IsOpen key × (length value ≤ max)
  IsPermitted (start_providing key) = IsOpen key
  IsPermitted (stop_providing key) = IsOpen key
  IsPermitted (remove_record key) = IsOpen key
  IsPermitted _ = Unit

  -- If the first command succeeds, and then the calls of the second are permitted, all are.
  then-IsPermitted :
      {A : Type 0} (r : Ran (Unit {0})) (next : Ran A)
      → All IsPermitted r.1
      → (r.0 ≡ ok tt → All IsPermitted next.1)
      → All IsPermitted (r >=> next).1
  then-IsPermitted (ok done, calls) next h g = append-All IsPermitted calls next.1 h (g refl)
  then-IsPermitted (err e, calls) next h g = h

module _ (net : Net) (max : ℕ) where
  pub check_key-cases :
      (key : Name)
      → ((check_key net max key ≡ (ok tt, [])) × IsOpen key)
        ⊎ ((e : Name) × (check_key net max key ≡ (err e, [])))
  unfolding check_key
  check_key-cases [] = inr (_, refl)
  check_key-cases (x ∷ key) = elim (Bool-cases (is_writable_key (x ∷ key))) [
    | inl good ↦ inl (rw (good, check_key) refl, is_writable_key-IsOpen (x ∷ key) good)
    | inr bad ↦ inr (bytes "key namespace not allowed", rw (bad, check_key) refl)
  ]

  -- A command that first checks its key.
  checked-IsPermitted :
      {A : Type 0} (key : Name) (next : Ran A)
      → (IsOpen key → All (IsPermitted max) next.1)
      → All (IsPermitted max) (check_key net max key >=> next).1
  checked-IsPermitted key next g = elim (check_key-cases key) [
    | inl (good, allowed) ↦ rw good (g allowed)
    | inr (e, bad) ↦ rw bad tt
  ]

  invalidate_record_key-IsPermitted :
      (key : Name) → All (IsPermitted max) (invalidate_record_key key)
  unfolding invalidate_record_key
  invalidate_record_key-IsPermitted key = ground arith

  -- A value is put only if it is small enough.
  put-IsPermitted :
      (key : Name) (value : List ℕ)
      → IsOpen key
      → All
          (IsPermitted max)
          ((check_compat_record_size (length value) max, []) >=> put net max key value).1
  unfolding check_compat_record_size put
  put-IsPermitted key value allowed = elim (Bool-cases (ltb max (length value))) [
    | inl large ↦ rw (large, check_compat_record_size) tt
    | inr fits ↦ rw (fits, check_compat_record_size) ((allowed, ground arith), tt)
  ]

  -- A further step of a command.
  step-IsPermitted :
      {A : Type 0} (r : Ran (Unit {0})) (next : Ran A)
      → All (IsPermitted max) r.1
      → All (IsPermitted max) next.1
      → All (IsPermitted max) (r >=> next).1
  step-IsPermitted r next h g = then-IsPermitted max r next h λ good. g

  add_value-IsPermitted :
      (key : Name) (value : Option (List ℕ)) (providing : Bool)
      → IsOpen key
      → All (IsPermitted max) (add_value net max key value providing).1
  unfolding add_value start_providing_record
  add_value-IsPermitted key none true allowed =
      step-IsPermitted (start_providing_record net max key) _ (allowed, tt) tt
  add_value-IsPermitted key none false allowed = tt
  add_value-IsPermitted key (some value) providing allowed =
      let stored : Ran (Unit {0}) =
        (check_compat_record_size (length value) max, []) >=> put net max key value in
      let dropped : Ran (Unit {0}) = stored >=> (ok tt, invalidate_record_key key) in
      let announced : Ran (Unit {0}) =
        if providing then start_providing_record net max key else (ok tt, []) in
      step-IsPermitted (dropped >=> announced) (ok (net.added key), [])
        (step-IsPermitted dropped announced
          (step-IsPermitted stored (ok tt, invalidate_record_key key)
            (put-IsPermitted key value allowed) (invalidate_record_key-IsPermitted key))
          (ground (arith, allowed)))
        tt

  worker_add_value-IsPermitted :
      (key : Name) (value : Option (List ℕ))
      → IsOpen key
      → All (IsPermitted max) (worker_add_value net max key value).1
  unfolding worker_add_value
  worker_add_value-IsPermitted key none allowed = tt
  worker_add_value-IsPermitted key (some value) allowed =
      let stored : Ran (Unit {0}) =
        (check_compat_record_size (length value) max, []) >=> put net max key value in
      let dropped : Ran (Unit {0}) = (
        ok tt,
        invalidate_record key
            ∷ (if starts_with key (bytes "/oahd/auth/") then invalidate_auth ∷ [] else []),
      ) in
      step-IsPermitted (stored >=> dropped) (ok (net.added key), [])
        (step-IsPermitted stored dropped (put-IsPermitted key value allowed) (ground arith)) tt

  parts-IsPermitted :
      (key : Name) (providing record' : Bool)
      → IsOpen key
      → All (IsPermitted max) (check_parts net max providing record').1
        × (All (IsPermitted max) (stop_provider net max key providing).1
            × All (IsPermitted max) (drop_record net max key record').1)
  unfolding check_parts stop_provider drop_record
  parts-IsPermitted key true true allowed = (tt, ((allowed, tt), (allowed, tt)))
  parts-IsPermitted key true false allowed = (tt, ((allowed, tt), tt))
  parts-IsPermitted key false true allowed = (tt, (tt, (allowed, tt)))
  parts-IsPermitted key false false allowed = (tt, (tt, tt))

  remove-IsPermitted :
      (key : Name) (providing record' : Bool)
      → All (IsPermitted max) (cmd_remove_key net max key providing record').1
  unfolding cmd_remove_key
  remove-IsPermitted key providing record' = elim (check_key-cases key) [
    | inr (e, bad) ↦ rw (bad, cmd_remove_key) tt
    | inl (good, allowed) ↦
        let parts = parts-IsPermitted key providing record' allowed in
        let checked : Ran (Unit {0}) =
          check_key net max key >=> check_parts net max providing record' in
        let stopped : Ran (Unit {0}) = checked >=> stop_provider net max key providing in
        let dropped : Ran (Unit {0}) = stopped >=> drop_record net max key record' in
        step-IsPermitted (dropped >=> (ok tt, invalidate_record_key key))
          (ok (net.removed key providing record'), [])
          (step-IsPermitted dropped (ok tt, invalidate_record_key key)
            (step-IsPermitted stopped (drop_record net max key record')
              (step-IsPermitted checked (stop_provider net max key providing)
                (step-IsPermitted (check_key net max key) (check_parts net max providing record')
                  (rw good tt) parts.0)
                parts.1.0)
              parts.1.1)
            (invalidate_record_key-IsPermitted key))
          tt
  ]

  add-IsPermitted :
      (key : Name) (value : Option (List ℕ)) (providing : Bool)
      → All (IsPermitted max) (cmd_add_key net max key value providing).1
  unfolding cmd_add_key
  add-IsPermitted key value providing =
      checked-IsPermitted key (add_value net max key value providing)
        (add_value-IsPermitted key value providing)

  worker-IsPermitted :
      (key : Name) (value : Option (List ℕ)) (providing : Bool)
      → All (IsPermitted max) (worker_add_key net max key value providing).1
  unfolding worker_add_key
  worker-IsPermitted key value true = tt
  worker-IsPermitted key value false =
      checked-IsPermitted key (worker_add_value net max key value)
        (worker_add_value-IsPermitted key value)

  ran-IsPermitted :
      {A : Type 0} (r ran : Ran A)
      → some r ≡ some ran
      → All (IsPermitted max) r.1
      → All (IsPermitted max) ran.1
  ran-IsPermitted r ran h g = rw (← some-injective r ran h) g

  -- The commands of a backend write only to keys of the authorization and of services, never to the
  -- list of types or to the bootstrap key, and put no value that is larger than the limit.
  pub run_write-IsPermitted :
      (msg : Message) (ran : Ran (List ℕ))
      → run_write net max msg ≡ some ran
      → All (IsPermitted max) ran.1
  unfolding run_write can_run_in_dht_worker
  run_write-IsPermitted (add_key u key value true) ran h =
      ran-IsPermitted (cmd_add_key net max key value true) ran h (add-IsPermitted key value true)
  run_write-IsPermitted (add_key u key value false) ran h =
      ran-IsPermitted (worker_add_key net max key value false) ran h
        (worker-IsPermitted key value false)
  run_write-IsPermitted (remove_key u key providing record') ran h =
      ran-IsPermitted (cmd_remove_key net max key providing record') ran h
        (remove-IsPermitted key providing record')
  run_write-IsPermitted msg ran h = ground (arith, h)
