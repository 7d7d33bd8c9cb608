-- ===== src/Command/Writes.antt =====
-- src/controller/command.rs: `cmd_add_key`, the `AddKey` of the DHT worker, `cmd_remove_key`, and
-- `NodeController::invalidate_record_key`.
use nexus_net.Base.{
  ℕ, ◌&&◌, not, Bool, true, false, Option, none, some, List, [], ◌∷◌, ◌++◌, Name, bytes, Result, ok,
  err, if◌then◌else◌, length,
}
use nexus_net.Sidecar.Message.{Message, add_key, remove_key}
use nexus_net.Swarm.Peers.{starts_with}
use nexus_net.Command.Keys.{is_writable_key, can_run_in_dht_worker, check_compat_record_size}

-- What a command does to the network and to the caches.
pub data Call : Type 0 where
  put_record : Name → List ℕ → Call
  start_providing stop_providing remove_record : Name → Call
  invalidate_record invalidate_providers : Name → Call
  invalidate_auth : Call

-- How the network answers, and the encoding of the results.
pub record Net : Type 0 where
  pub put : Name → List ℕ → Result Name (Unit {0})
  pub provide : Name → Result Name (Unit {0})
  pub stop : Name → Result Name (Unit {0})
  pub remove : Name → Result Name (Unit {0})
  pub added : Name → List ℕ
  pub removed : Name → Bool → Bool → List ℕ

-- A result and the calls that were made.
abbrev pub Ran : Type 0 → Type 0
Ran A = Result Name A × List Call

infixl 5 ◌>=>◌
-- What follows a success.
abbrev pub ◌>=>◌ : {A : Type 0} → Ran (Unit {0}) → Ran A → Ran A
(ok done, calls) >=> (r, more) = (r, calls ++ more)
(err e, calls) >=> next = (err e, calls)

abbrev pub refuse : {A : Type 0} → Name → Ran A
refuse text = (err text, [])

-- `map_err(|e| format!("..: {e}"))`
abbrev pub with_context : Name → Result Name (Unit {0}) → Result Name (Unit {0})
with_context text (ok done) = ok tt
with_context text (err e) = err (text ++ e)

unfoldable pub invalidate_record_key : Name → List Call
invalidate_record_key key =
    invalidate_record key
    ∷ ((if starts_with key (bytes "/oahd/auth/") then invalidate_auth ∷ [] else [])
        ++ (if starts_with key (bytes "/oahd/service/") then invalidate_providers key ∷ [] else []))

module _ (net : Net) (max_record_bytes : ℕ) where
  -- `swarm.put_record`; the quorum is always `One`.
  unfoldable pub put : Name → List ℕ → Ran (Unit {0})
  put key value =
      (with_context (bytes "put_record failed: ") (net.put key value), put_record key value ∷ [])

  unfoldable pub start_providing_record : Name → Ran (Unit {0})
  start_providing_record key =
      (with_context (bytes "start_providing failed: ") (net.provide key), start_providing key ∷ [])

  -- The guards that all writes have in common.
  unfoldable pub check_key : Name → Ran (Unit {0})
  check_key [] = refuse (bytes "missing 'key' field")
  check_key (x ∷ key) =
      if is_writable_key (x ∷ key) then (ok tt, []) else refuse (bytes "key namespace not allowed")

  unfoldable pub add_value : Name → Option (List ℕ) → Bool → Ran (List ℕ)
  add_value key (some value) providing =
      (check_compat_record_size (length value) max_record_bytes, [])
      >=> put key value
      >=> (ok tt, invalidate_record_key key)
      >=> (if providing then start_providing_record key else (ok tt, []))
      >=> (ok (net.added key), [])
  add_value key none true = start_providing_record key >=> (ok (net.added key), [])
  add_value key none false = refuse (bytes "at least one of 'value' or 'providing' is required")

  unfoldable pub cmd_add_key : Name → Option (List ℕ) → Bool → Ran (List ℕ)
  cmd_add_key key value providing = check_key key >=> add_value key value providing

  unfoldable pub worker_add_value : Name → Option (List ℕ) → Ran (List ℕ)
  worker_add_value key (some value) =
      (check_compat_record_size (length value) max_record_bytes, [])
      >=> put key value
      >=> (
        ok tt,
        invalidate_record key
            ∷ (if starts_with key (bytes "/oahd/auth/") then invalidate_auth ∷ [] else []),
      )
      >=> (ok (net.added key), [])
  worker_add_value key none = refuse (bytes "at least one of 'value' or 'providing' is required")

  -- `run_dht_command` for `AddKey`.
  unfoldable pub worker_add_key : Name → Option (List ℕ) → Bool → Ran (List ℕ)
  worker_add_key key value true = refuse (bytes "async add_key does not support providing")
  worker_add_key key value false = check_key key >=> worker_add_value key value

  unfoldable pub stop_provider : Name → Bool → Ran (Unit {0})
  stop_provider key true =
      (with_context (bytes "stop_providing failed: ") (net.stop key), stop_providing key ∷ [])
  stop_provider key false = (ok tt, [])

  unfoldable pub drop_record : Name → Bool → Ran (Unit {0})
  drop_record key true =
      (with_context (bytes "remove_record failed: ") (net.remove key), remove_record key ∷ [])
  drop_record key false = (ok tt, [])

  unfoldable pub check_parts : Bool → Bool → Ran (Unit {0})
  check_parts providing record' =
      if not providing && not record'
      then refuse (bytes "at least one of 'providing' or 'record' is required")
      else (ok tt, [])

  unfoldable pub cmd_remove_key : Name → Bool → Bool → Ran (List ℕ)
  cmd_remove_key key providing record' =
      check_key key
      >=> check_parts providing record'
      >=> stop_provider key providing
      >=> drop_record key record'
      >=> (ok tt, invalidate_record_key key)
      >=> (ok (net.removed key providing record'), [])

  -- The commands that write, where `dispatch_command` sends them; none for the others.
  unfoldable pub run_write : Message → Option (Ran (List ℕ))
  run_write (add_key u key value providing) =
      if can_run_in_dht_worker (add_key u key value providing)
      then some (worker_add_key key value providing)
      else some (cmd_add_key key value providing)
  run_write (remove_key u key providing record') = some (cmd_remove_key key providing record')
  run_write _ = none
