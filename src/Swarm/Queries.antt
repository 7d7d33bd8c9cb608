-- ===== src/Swarm/Queries.antt =====
-- src/network/actor.rs: the pending Kademlia queries, the commands that start them, and
-- `handle_kad_event`. A waiter is the number of its `oneshot` channel.
use nexus_net.Base.HashSet
use nexus_net.Base.{
  ℕ, Bool, true, Option, none, some, List, [], ◌∷◌, ◌++◌, Name, Result, ok, err, Eq, nat_eq,
}
use nexus_net.Swarm.Types.{NetworkError, kad_failed}

module _ (PeerId Record' PeerInfo : Type 0) where
  -- The entries of `pending_kad`.
  pub data KadPending : Type 0 where
    get_record : ℕ → List Record' → KadPending
    get_providers : ℕ → List PeerId → KadPending
    get_closest_peers : ℕ → KadPending
    put_record : Name → ℕ → KadPending
    start_providing : ℕ → KadPending

  -- What a waiter gets.
  pub data Answer : Type 0 where
    records : Result NetworkError (List Record') → Answer
    providers : Result NetworkError (List PeerId) → Answer
    peers : Result NetworkError (List PeerInfo) → Answer
    unit : Result NetworkError (Unit {0}) → Answer

  -- `forget` drops the sender unused; `remove_local` takes a record out of the local store.
  pub data Effect : Type 0 where
    answer : ℕ → Answer → Effect
    forget : ℕ → Effect
    remove_local : Name → Effect

  pub data GetRecordResult : Type 0 where
    found_record : Record' → GetRecordResult
    no_additional_record not_found : GetRecordResult
    record_error : Name → GetRecordResult

  pub data GetProvidersResult : Type 0 where
    found_providers : List PeerId → GetProvidersResult
    no_additional_provider : GetProvidersResult
    providers_error : Name → GetProvidersResult

  -- `QueryResult`, as far as it concerns waiters; an error is its text.
  pub data QueryResult : Type 0 where
    got_record : GetRecordResult → QueryResult
    got_providers : GetProvidersResult → QueryResult
    got_closest_peers : Result Name (List PeerInfo) → QueryResult
    did_put_record did_start_providing : Result Name (Unit {0}) → QueryResult
    other_result : QueryResult

-- The Kademlia commands of `SwarmCommand`, each with its waiter.
pub data KadCommand : Type 0 where
  ask_record ask_providers : Name → ℕ → KadCommand
  ask_closest_peers : ℕ → KadCommand
  write_record provide : Name → ℕ → KadCommand
  stop_providing drop_record : Name → ℕ → KadCommand

module _ {PeerId Record' PeerInfo : Type 0} where
  abbrev pub unit_failed : ℕ → NetworkError → Effect PeerId Record' PeerInfo
  unit_failed resp error = answer resp (unit (err error))

  -- `KadPending::fail`
  unfoldable pub fail :
      NetworkError → KadPending PeerId Record' PeerInfo → Effect PeerId Record' PeerInfo
  fail error (get_record resp found) = answer resp (records (err error))
  fail error (get_providers resp found) = answer resp (providers (err error))
  fail error (get_closest_peers resp) = answer resp (peers (err error))
  fail error (put_record key resp) = unit_failed resp error
  fail error (start_providing resp) = unit_failed resp error

  -- The waiter of an entry.
  abbrev pub waiter : KadPending PeerId Record' PeerInfo → ℕ
  waiter (get_record resp found) = resp
  waiter (get_providers resp found) = resp
  waiter (get_closest_peers resp) = resp
  waiter (put_record key resp) = resp
  waiter (start_providing resp) = resp

  -- `map(|_| ()).map_err(..)`, and that of the closest peers.
  abbrev pub unit_result : Result Name (Unit {0}) → Answer PeerId Record' PeerInfo
  unit_result (ok done) = unit (ok tt)
  unit_result (err text) = unit (err (kad_failed text))

  abbrev pub peers_result : Result Name (List PeerInfo) → Answer PeerId Record' PeerInfo
  peers_result (ok found) = peers (ok found)
  peers_result (err text) = peers (err (kad_failed text))

  module _ ⦃e : Eq PeerId⦄ where
    -- The entry that goes back into the table, if the query goes on, and the effects.
    unfoldable pub apply_get_providers :
        GetProvidersResult PeerId Record' PeerInfo
        → KadPending PeerId Record' PeerInfo
        → Option (KadPending PeerId Record' PeerInfo) × List (Effect PeerId Record' PeerInfo)
    apply_get_providers (found_providers batch) (get_providers resp found) =
        (some (get_providers resp (HashSet.extend found batch)), [])
    apply_get_providers no_additional_provider (get_providers resp found) =
        (none, answer resp (providers (ok found)) ∷ [])
    apply_get_providers (providers_error text) (get_providers resp found) =
        (none, answer resp (providers (err (kad_failed text))) ∷ [])
    apply_get_providers result other = (some other, [])

    -- A record query; any other entry is dropped.
    unfoldable pub apply_get_record :
        GetRecordResult PeerId Record' PeerInfo
        → KadPending PeerId Record' PeerInfo
        → Option (KadPending PeerId Record' PeerInfo) × List (Effect PeerId Record' PeerInfo)
    apply_get_record (found_record r) (get_record resp found) =
        (some (get_record resp (found ++ r ∷ [])), [])
    apply_get_record no_additional_record (get_record resp found) =
        (none, answer resp (records (ok found)) ∷ [])
    apply_get_record not_found (get_record resp found) =
        (none, answer resp (records (ok found)) ∷ [])
    apply_get_record (record_error text) (get_record resp []) =
        (none, answer resp (records (err (kad_failed text))) ∷ [])
    apply_get_record (record_error text) (get_record resp (r ∷ found)) =
        (none, answer resp (records (ok (r ∷ found))) ∷ [])
    apply_get_record result other = (none, forget (waiter other) ∷ [])

    abbrev pub cleaned :
        Bool → Name → Result Name (Unit {0}) → List (Effect PeerId Record' PeerInfo)
    cleaned true key (err text) = remove_local key ∷ []
    cleaned kad_on key result = []

    -- The other results; `kad_on` says whether the behaviour is there.
    unfoldable pub apply_result :
        Bool
        → QueryResult PeerId Record' PeerInfo
        → KadPending PeerId Record' PeerInfo
        → Option (KadPending PeerId Record' PeerInfo) × List (Effect PeerId Record' PeerInfo)
    apply_result kad_on (got_record result) entry = apply_get_record result entry
    apply_result kad_on (got_providers result) entry = apply_get_providers result entry
    apply_result kad_on (got_closest_peers result) (get_closest_peers resp) =
        (none, answer resp (peers_result result) ∷ [])
    apply_result kad_on (did_put_record result) (put_record key resp) =
        (none, cleaned kad_on key result ++ answer resp (unit_result result) ∷ [])
    apply_result kad_on (did_start_providing result) (start_providing resp) =
        (none, answer resp (unit_result result) ∷ [])
    apply_result kad_on other_result entry = (some entry, [])
    apply_result kad_on result entry = (none, forget (waiter entry) ∷ [])
