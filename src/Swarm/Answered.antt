-- ===== src/Swarm/Answered.antt =====
-- src/network/actor.rs: the waiters of Kademlia queries.
use nexus_net.Base.HashMap
use nexus_net.Base.Bags.{count}
use nexus_net.Base.Tables.{
  IsTable, remove-IsTable, insert-IsTable, tally, of_entry, tally-remove, tally-insert,
}
use nexus_net.Base.{
  ℕ, ◌+◌, ◌≡◌, refl, Bool, true, false, Option, none, some, List, [], ◌∷◌, ◌++◌, Name, Result, ok,
  err, Eq, nat_eq, arith, Option-cases, inl, inr,
}
use nexus_net.Swarm.Types.{NetworkError, reloaded}
use nexus_net.Swarm.Queries.{
  KadPending, Effect, QueryResult, KadCommand, GetRecordResult, GetProvidersResult, get_record,
  get_providers, get_closest_peers, put_record, start_providing, answer, forget, remove_local,
  ask_record, ask_providers, ask_closest_peers, write_record, provide, stop_providing, drop_record,
  fail, waiter, apply_result, apply_get_record, apply_get_providers, found_record,
  no_additional_record, not_found, record_error, found_providers, no_additional_provider,
  providers_error, got_record, got_providers, got_closest_peers, did_put_record,
  did_start_providing, other_result,
}
use nexus_net.Swarm.Waiters.{
  add, on_command, fail_all, on_result, put_back, KadMove, commands, progresses, reloads, move,
  moves,
}

-- The waiter of a command.
abbrev pub asker : KadCommand → ℕ
asker (ask_record key resp) = resp
asker (ask_providers key resp) = resp
asker (ask_closest_peers resp) = resp
asker (write_record key resp) = resp
asker (provide key resp) = resp
asker (stop_providing key resp) = resp
asker (drop_record key resp) = resp

module _ {PeerId Record' PeerInfo : Type 0} where
  -- The waiters that effects use up, and those that moves bring.
  abbrev pub settled : List (Effect PeerId Record' PeerInfo) → List ℕ
  settled [] = []
  settled (answer resp result ∷ effects) = resp ∷ settled effects
  settled (forget resp ∷ effects) = resp ∷ settled effects
  settled (remove_local key ∷ effects) = settled effects

  abbrev pub asked : List (KadMove PeerId Record' PeerInfo) → List ℕ
  asked [] = []
  asked (commands kad_on id stored cmd ∷ ms) = asker cmd ∷ asked ms
  asked (progresses kad_on id result ∷ ms) = asked ms
  asked (reloads ∷ ms) = asked ms

  module _ (c : ℕ) where
    settled-append :
        (xs ys : List (Effect PeerId Record' PeerInfo))
        → count c (settled (xs ++ ys)) ≡ count c (settled xs) + count c (settled ys)
    settled-append [] ys = omega arith
    settled-append (answer resp result ∷ xs) ys = omega (arith, settled-append xs ys)
    settled-append (forget resp ∷ xs) ys = omega (arith, settled-append xs ys)
    settled-append (remove_local key ∷ xs) ys = settled-append xs ys

    -- Each waiter stands in the table as before, or is used up.
    record Keeps (n : ℕ)
        (r : List (ℕ × KadPending PeerId Record' PeerInfo) × List (Effect PeerId Record' PeerInfo))
        : Type 0 where
      same : n ≡ count c (settled r.1) + tally waiter c r.0
      table : IsTable r.0

    add-Keeps :
        (id : ℕ) (entry : KadPending PeerId Record' PeerInfo)
        (table : List (ℕ × KadPending PeerId Record' PeerInfo))
        → IsTable table
        → Keeps (tally waiter c table + count c (waiter entry ∷ [])) (add id entry table)
    unfolding add
    add-Keeps id entry table m = record {
      same = elim (Option-cases (HashMap.get table id)) [
        | inl none' ↦ rw none' (ground (arith, tally-insert waiter c id entry table m, none'))
        | inr (old, some') ↦
            rw some' (ground (arith, tally-insert waiter c id entry table m, some'))
      ];
      table = insert-IsTable id entry table m;
    }

    on_command-Keeps :
        (kad_on : Bool) (id : ℕ) (stored : Result Name (Unit {0})) (cmd : KadCommand)
        (table : List (ℕ × KadPending PeerId Record' PeerInfo))
        → IsTable table
        → Keeps
            (tally waiter c table + count c (asker cmd ∷ []))
            (on_command kad_on id stored cmd table)
    unfolding on_command
    on_command-Keeps true id stored (ask_record key resp) table m =
        add-Keeps id (get_record resp []) table m
    on_command-Keeps true id stored (ask_providers key resp) table m =
        add-Keeps id (get_providers resp []) table m
    on_command-Keeps true id stored (ask_closest_peers resp) table m =
        add-Keeps id (get_closest_peers resp) table m
    on_command-Keeps true id (ok done) (write_record key resp) table m =
        add-Keeps id (put_record key resp) table m
    on_command-Keeps true id (ok done) (provide key resp) table m =
        add-Keeps id (start_providing resp) table m
    on_command-Keeps false id stored (ask_record key resp) table m = record {
      same = omega arith;
      table = m;
    }
    on_command-Keeps false id stored (ask_providers key resp) table m = record {
      same = omega arith;
      table = m;
    }
    on_command-Keeps false id stored (ask_closest_peers resp) table m = record {
      same = omega arith;
      table = m;
    }
    on_command-Keeps false id stored (write_record key resp) table m = record {
      same = omega arith;
      table = m;
    }
    on_command-Keeps false id stored (provide key resp) table m = record {
      same = omega arith;
      table = m;
    }
    on_command-Keeps false id stored (stop_providing key resp) table m = record {
      same = omega arith;
      table = m;
    }
    on_command-Keeps false id stored (drop_record key resp) table m = record {
      same = omega arith;
      table = m;
    }
    on_command-Keeps true id (err text) (write_record key resp) table m = record {
      same = omega arith;
      table = m;
    }
    on_command-Keeps true id (err text) (provide key resp) table m = record {
      same = omega arith;
      table = m;
    }
    on_command-Keeps true id stored (stop_providing key resp) table m = record {
      same = omega arith;
      table = m;
    }
    on_command-Keeps true id stored (drop_record key resp) table m = record {
      same = omega arith;
      table = m;
    }

    settled-fail_all :
        (error : NetworkError) (table : List (ℕ × KadPending PeerId Record' PeerInfo))
        → count c (settled (fail_all error table)) ≡ tally waiter c table
    unfolding fail_all fail
    settled-fail_all error [] = refl
    settled-fail_all error ((id, get_record resp found) ∷ table) =
        omega (arith, settled-fail_all error table)
    settled-fail_all error ((id, get_providers resp found) ∷ table) =
        omega (arith, settled-fail_all error table)
    settled-fail_all error ((id, get_closest_peers resp) ∷ table) =
        omega (arith, settled-fail_all error table)
    settled-fail_all error ((id, put_record key resp) ∷ table) =
        omega (arith, settled-fail_all error table)
    settled-fail_all error ((id, start_providing resp) ∷ table) =
        omega (arith, settled-fail_all error table)

    module _ ⦃e : Eq PeerId⦄ where
      -- A result uses the waiter of its entry, or leaves it with the entry that goes back.
      apply_get_record-eq :
          (result : GetRecordResult PeerId Record' PeerInfo)
          (entry : KadPending PeerId Record' PeerInfo)
          → count c (waiter entry ∷ [])
            ≡ count c (settled (apply_get_record result entry).1)
              + of_entry waiter c (apply_get_record result entry).0
      unfolding apply_get_record
      apply_get_record-eq (record_error text) (get_record resp []) = omega arith
      apply_get_record-eq (record_error text) (get_record resp (r ∷ found)) = omega arith
      apply_get_record-eq (found_record r) (get_record resp found) = omega arith
      apply_get_record-eq no_additional_record (get_record resp found) = omega arith
      apply_get_record-eq not_found (get_record resp found) = omega arith
      apply_get_record-eq _ _ = omega arith

      apply_get_providers-eq :
          (result : GetProvidersResult PeerId Record' PeerInfo)
          (entry : KadPending PeerId Record' PeerInfo)
          → count c (waiter entry ∷ [])
            ≡ count c (settled (apply_get_providers result entry).1)
              + of_entry waiter c (apply_get_providers result entry).0
      unfolding apply_get_providers
      apply_get_providers-eq (found_providers batch) (get_providers resp found) = omega arith
      apply_get_providers-eq no_additional_provider (get_providers resp found) = omega arith
      apply_get_providers-eq (providers_error text) (get_providers resp found) = omega arith
      apply_get_providers-eq _ _ = omega arith

      apply_result-eq :
          (kad_on : Bool) (result : QueryResult PeerId Record' PeerInfo)
          (entry : KadPending PeerId Record' PeerInfo)
          → count c (waiter entry ∷ [])
            ≡ count c (settled (apply_result kad_on result entry).1)
              + of_entry waiter c (apply_result kad_on result entry).0
      unfolding apply_result
      apply_result-eq kad_on (got_record result) entry = apply_get_record-eq result entry
      apply_result-eq kad_on (got_providers result) entry = apply_get_providers-eq result entry
      apply_result-eq kad_on (got_closest_peers result) (get_closest_peers resp) = omega arith
      apply_result-eq true (did_put_record (ok done)) (put_record key resp) = omega arith
      apply_result-eq true (did_put_record (err text)) (put_record key resp) = omega arith
      apply_result-eq false (did_put_record result) (put_record key resp) = omega arith
      apply_result-eq kad_on (did_start_providing result) (start_providing resp) = omega arith
      apply_result-eq kad_on other_result entry = omega arith
      apply_result-eq _ _ _ = omega arith

      put_back-Keeps :
          (id : ℕ) (back : Option (KadPending PeerId Record' PeerInfo))
          (effects : List (Effect PeerId Record' PeerInfo))
          (table : List (ℕ × KadPending PeerId Record' PeerInfo))
          → IsTable table
          → HashMap.get table id ≡ none
          → Keeps
              (count c (settled effects) + of_entry waiter c back + tally waiter c table)
              (put_back id back table, effects)
      put_back-Keeps id none effects table m free = record { same = omega arith; table = m }
      put_back-Keeps id (some entry) effects table m free = record {
        same = ground (arith, tally-insert waiter c id entry table m, free);
        table = insert-IsTable id entry table m;
      }

      on_result-Keeps :
          (kad_on : Bool) (id : ℕ) (result : QueryResult PeerId Record' PeerInfo)
          (table : List (ℕ × KadPending PeerId Record' PeerInfo))
          → IsTable table
          → Keeps (tally waiter c table) (on_result kad_on id result table)
      unfolding on_result
      on_result-Keeps kad_on id result table m = elim (Option-cases (HashMap.get table id)) [
        | inl none' ↦ rw (none', on_result) (record { same = omega arith; table = m })
        | inr (entry, some') ↦
            rw (some', on_result)
              let (back, effects) = apply_result kad_on result entry in
                let k =
                  put_back-Keeps id back effects (HashMap.remove id table)
                    (remove-IsTable id table m) (ground (arith, HashMap.get-remove id id table)) in
                record {
                  same = ground (
                    arith,
                    k.same,
                    tally-remove waiter c id table m,
                    some',
                    apply_result-eq kad_on result entry,
                  );
                  table = k.table;
                }
      ]

      move-Keeps :
          (m : KadMove PeerId Record' PeerInfo)
          (table : List (ℕ × KadPending PeerId Record' PeerInfo))
          → IsTable table
          → Keeps (tally waiter c table + count c (asked (m ∷ []))) (move m table)
      unfolding move
      move-Keeps (commands kad_on id stored cmd) table m =
          on_command-Keeps kad_on id stored cmd table m
      move-Keeps (progresses kad_on id result) table m =
          let k = on_result-Keeps kad_on id result table m in
          record { same = omega (arith, k.same); table = k.table }
      move-Keeps reloads table m = record {
        same = omega (arith, settled-fail_all reloaded table);
        table = tt;
      }

      asked-eq :
          (x : KadMove PeerId Record' PeerInfo) (ms : List (KadMove PeerId Record' PeerInfo))
          → count c (asked (x ∷ ms)) ≡ count c (asked (x ∷ [])) + count c (asked ms)
      asked-eq (commands kad_on id stored cmd) ms = omega arith
      asked-eq (progresses kad_on id result) ms = omega arith
      asked-eq reloads ms = omega arith

      moves-Keeps :
          (ms : List (KadMove PeerId Record' PeerInfo))
          (table : List (ℕ × KadPending PeerId Record' PeerInfo))
          → IsTable table
          → Keeps (tally waiter c table + count c (asked ms)) (moves ms table)
      unfolding moves
      moves-Keeps [] table m = record { same = omega arith; table = m }
      moves-Keeps (x ∷ ms) table m =
          let k = move-Keeps x table m in
          let later = moves-Keeps ms (move x table).0 k.table in
          record {
            same = ground (
              arith,
              k.same,
              later.same,
              settled-append (move x table).1 (moves ms (move x table).0).1,
              asked-eq x ms,
            );
            table = later.table;
          }

      -- Whatever commands, results and reloads reach the actor, in whatever order and however the
      -- queries end, each waiter of a Kademlia command has been answered or dropped, once, or still
      -- stands in the table.
      pub moves_answered :
          (ms : List (KadMove PeerId Record' PeerInfo))
          → count c (asked ms) ≡ count c (settled (moves ms []).1) + tally waiter c (moves ms []).0
      moves_answered ms = let k = moves-Keeps ms [] tt in omega (arith, k.same)
