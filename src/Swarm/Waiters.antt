-- ===== src/Swarm/Waiters.antt =====
-- src/network/actor.rs: the table `pending_kad` under commands, results and reloads.
use nexus_net.Base.HashMap
use nexus_net.Base.{
  ℕ, Bool, true, false, Option, none, some, List, [], ◌∷◌, ◌++◌, Name, Result, ok, err, Eq, nat_eq,
}
use nexus_net.Swarm.Types.{NetworkError, disabled, reloaded, kad_failed}
use nexus_net.Swarm.Queries.{
  KadPending, Effect, QueryResult, KadCommand, get_record, get_providers, get_closest_peers,
  put_record, start_providing, records, providers, peers, unit, answer, forget, remove_local,
  ask_record, ask_providers, ask_closest_peers, write_record, provide, stop_providing, drop_record,
  fail, waiter, apply_result,
}

module _ {PeerId Record' PeerInfo : Type 0} where
  -- The sender of an entry that `insert` replaces is dropped.
  abbrev pub replaced :
      Option (KadPending PeerId Record' PeerInfo) → List (Effect PeerId Record' PeerInfo)
  replaced none = []
  replaced (some old) = forget (waiter old) ∷ []

  -- `self.pending_kad.insert(query_id, entry)`
  unfoldable pub add :
      ℕ
      → KadPending PeerId Record' PeerInfo
      → List (ℕ × KadPending PeerId Record' PeerInfo)
      → List (ℕ × KadPending PeerId Record' PeerInfo) × List (Effect PeerId Record' PeerInfo)
  add id entry table = (HashMap.insert id entry table, replaced (HashMap.get table id))

  -- What a command gets if the behaviour is off.
  abbrev pub refusal : KadCommand → Effect PeerId Record' PeerInfo
  refusal (ask_record key resp) = answer resp (records (err disabled))
  refusal (ask_providers key resp) = answer resp (providers (err disabled))
  refusal (ask_closest_peers resp) = answer resp (peers (err disabled))
  refusal (write_record key resp) = answer resp (unit (err disabled))
  refusal (provide key resp) = answer resp (unit (err disabled))
  refusal (stop_providing key resp) = answer resp (unit (err disabled))
  refusal (drop_record key resp) = answer resp (unit (err disabled))

  -- The Kademlia branches of `handle_command`: `id` is the number of the query if one starts,
  -- `stored` how the local store takes a record or a provider.
  unfoldable pub on_command :
      Bool
      → ℕ
      → Result Name (Unit {0})
      → KadCommand
      → List (ℕ × KadPending PeerId Record' PeerInfo)
      → List (ℕ × KadPending PeerId Record' PeerInfo) × List (Effect PeerId Record' PeerInfo)
  on_command false id stored cmd table = (table, refusal cmd ∷ [])
  on_command true id stored (ask_record key resp) table = add id (get_record resp []) table
  on_command true id stored (ask_providers key resp) table = add id (get_providers resp []) table
  on_command true id stored (ask_closest_peers resp) table = add id (get_closest_peers resp) table
  on_command true id (ok done) (write_record key resp) table = add id (put_record key resp) table
  on_command true id (err text) (write_record key resp) table =
      (table, answer resp (unit (err (kad_failed text))) ∷ [])
  on_command true id (ok done) (provide key resp) table = add id (start_providing resp) table
  on_command true id (err text) (provide key resp) table =
      (table, answer resp (unit (err (kad_failed text))) ∷ [])
  on_command true id stored (stop_providing key resp) table =
      (table, answer resp (unit (ok tt)) ∷ [])
  on_command true id stored (drop_record key resp) table =
      (table, remove_local key ∷ answer resp (unit (ok tt)) ∷ [])

  -- `for (_, pending) in self.pending_kad.drain() { pending.fail(error) }`
  unfoldable pub fail_all :
      NetworkError
      → List (ℕ × KadPending PeerId Record' PeerInfo)
      → List (Effect PeerId Record' PeerInfo)
  fail_all error [] = []
  fail_all error ((id, entry) ∷ table) = fail error entry ∷ fail_all error table

  module _ ⦃e : Eq PeerId⦄ where
    abbrev pub put_back :
        ℕ
        → Option (KadPending PeerId Record' PeerInfo)
        → List (ℕ × KadPending PeerId Record' PeerInfo)
        → List (ℕ × KadPending PeerId Record' PeerInfo)
    put_back id none table = table
    put_back id (some entry) table = HashMap.insert id entry table

    -- `OutboundQueryProgressed`; a result without an entry is ignored.
    unfoldable pub on_result :
        Bool
        → ℕ
        → QueryResult PeerId Record' PeerInfo
        → List (ℕ × KadPending PeerId Record' PeerInfo)
        → List (ℕ × KadPending PeerId Record' PeerInfo) × List (Effect PeerId Record' PeerInfo)
    on_result kad_on id result table = elim (HashMap.get table id) [
      | none ↦ (table, [])
      | some entry ↦
          let (back, effects) = apply_result kad_on result entry in
          (put_back id back (HashMap.remove id table), effects)
    ]

-- What reaches the table, in its order.
pub data KadMove (PeerId Record' PeerInfo : Type 0) : Type 0 where
  commands : Bool → ℕ → Result Name (Unit {0}) → KadCommand → KadMove PeerId Record' PeerInfo
  progresses : Bool → ℕ → QueryResult PeerId Record' PeerInfo → KadMove PeerId Record' PeerInfo
  reloads : KadMove PeerId Record' PeerInfo

module _ {PeerId Record' PeerInfo : Type 0} ⦃e : Eq PeerId⦄ where
  unfoldable pub move :
      KadMove PeerId Record' PeerInfo
      → List (ℕ × KadPending PeerId Record' PeerInfo)
      → List (ℕ × KadPending PeerId Record' PeerInfo) × List (Effect PeerId Record' PeerInfo)
  move (commands kad_on id stored cmd) table = on_command kad_on id stored cmd table
  move (progresses kad_on id result) table = on_result kad_on id result table
  move reloads table = ([], fail_all reloaded table)

  unfoldable pub moves :
      List (KadMove PeerId Record' PeerInfo)
      → List (ℕ × KadPending PeerId Record' PeerInfo)
      → List (ℕ × KadPending PeerId Record' PeerInfo) × List (Effect PeerId Record' PeerInfo)
  moves [] table = (table, [])
  moves (m ∷ ms) table =
      let (next, effects) = move m table in
      let (last, more) = moves ms next in (last, effects ++ more)
