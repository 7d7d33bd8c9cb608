-- ===== src/Swarm/Gathered.antt =====
-- src/network/actor.rs: what a query collects until it ends.
use nexus_net.Base.HashMap
use nexus_net.Base.HashSet
use nexus_net.Base.{
  ℕ, ◌≡◌, refl, ap, sym, ◌∙◌, ◌||◌, Bool, true, false, some, List, [], ◌∷◌, ◌++◌, Result, ok, err,
  Eq, nat_eq, arith,
}
use mathlib.Core.List.{append_assoc, append-nil}
use nexus_net.Swarm.Types.{NetworkError, kad_failed}
use nexus_net.Swarm.Queries.{
  KadPending, QueryResult, GetRecordResult, GetProvidersResult, providers_error, get_record,
  get_providers, answer, records, providers, apply_result, apply_get_record, apply_get_providers,
  found_record, no_additional_record, not_found, record_error, found_providers,
  no_additional_provider, got_record, got_providers,
}
use nexus_net.Swarm.Waiters.{on_result, put_back, KadMove, progresses, move, moves}

module _ {PeerId Record' PeerInfo : Type 0} where
  -- A query reports records one by one, and then ends.
  abbrev pub reports_records :
      Bool
      → ℕ
      → List Record'
      → GetRecordResult PeerId Record' PeerInfo
      → List (KadMove PeerId Record' PeerInfo)
  reports_records kad_on id [] end = progresses kad_on id (got_record end) ∷ []
  reports_records kad_on id (r ∷ rs) end =
      progresses kad_on id (got_record (found_record r)) ∷ reports_records kad_on id rs end

  abbrev pub reports_providers :
      Bool
      → ℕ
      → List (List PeerId)
      → GetProvidersResult PeerId Record' PeerInfo
      → List (KadMove PeerId Record' PeerInfo)
  reports_providers kad_on id [] end = progresses kad_on id (got_providers end) ∷ []
  reports_providers kad_on id (b ∷ bs) end =
      progresses kad_on id (got_providers (found_providers b)) ∷ reports_providers kad_on id bs end

module _ {PeerId : Type 0} ⦃e : Eq PeerId⦄ where
  -- Whether some batch holds a peer.
  abbrev pub in_batches : List (List PeerId) → PeerId → Bool
  in_batches [] p = false
  in_batches (b ∷ bs) p = HashSet.contains b p || in_batches bs p

module _ {PeerId Record' PeerInfo : Type 0} ⦃e : Eq PeerId⦄ where
  abbrev pub is_end : GetRecordResult PeerId Record' PeerInfo → Bool
  is_end (found_record r) = false
  is_end end = true

  result-eq :
      (kad_on : Bool) (id : ℕ) (result : QueryResult PeerId Record' PeerInfo)
      (table : List (ℕ × KadPending PeerId Record' PeerInfo))
      (entry : KadPending PeerId Record' PeerInfo)
      → HashMap.get table id ≡ some entry
      → on_result kad_on id result table ≡ (
        put_back id (apply_result kad_on result entry).0 (HashMap.remove id table),
        (apply_result kad_on result entry).1,
      )
  unfolding on_result
  result-eq kad_on id result table entry here = rw (here, on_result) refl

  -- The table after a report that goes on, and where the entry is there.
  kept-get :
      (id : ℕ) (entry : KadPending PeerId Record' PeerInfo)
      (table : List (ℕ × KadPending PeerId Record' PeerInfo))
      → HashMap.get (HashMap.insert id entry (HashMap.remove id table)) id ≡ some entry
  kept-get id entry table = ground (arith, HashMap.get-insert id id entry (HashMap.remove id table))

  abbrev pub ends_providers : GetProvidersResult PeerId Record' PeerInfo → Bool
  ends_providers (found_providers batch) = false
  ends_providers end = true

  -- What a provider query answers, by how it ends.
  abbrev pub provider_outcome :
      GetProvidersResult PeerId Record' PeerInfo → List PeerId → Result NetworkError (List PeerId)
  provider_outcome (providers_error text) found = err (kad_failed text)
  provider_outcome end found = ok found

  provider_ends-eq :
      (kad_on : Bool) (resp : ℕ) (end : GetProvidersResult PeerId Record' PeerInfo)
      (found : List PeerId)
      → ends_providers end ≡ true
      → (apply_result kad_on (got_providers end) (get_providers resp found)).1
        ≡ answer resp (providers (provider_outcome end found)) ∷ []
  unfolding apply_result apply_get_providers
  provider_ends-eq kad_on resp (found_providers b) found h = absurd (ground arith)
  provider_ends-eq kad_on resp no_additional_provider found h = refl
  provider_ends-eq kad_on resp (providers_error text) found h = refl

  -- A provider query answers once, when it ends, however its batches arrive: with all peers of the
  -- batches and no others, if it finishes, and with the error alone, if it ends with an error.
  pub get_providers-collects :
      (kad_on : Bool) (id resp : ℕ) (bs : List (List PeerId))
      (end : GetProvidersResult PeerId Record' PeerInfo) (found : List PeerId)
      (table : List (ℕ × KadPending PeerId Record' PeerInfo))
      → ends_providers end ≡ true
      → HashMap.get table id ≡ some (get_providers resp found)
      → (all : List PeerId) × ((moves (reports_providers kad_on id bs end) table).1
          ≡ answer resp (providers (provider_outcome end all)) ∷ [])
        × ((p : PeerId) → HashSet.contains all p ≡ (in_batches bs p || HashSet.contains found p))
  unfolding moves move apply_result apply_get_providers
  get_providers-collects kad_on id resp [] end found table h here = (
    found,
    ap (λ r. r.1 ++ [])
          (result-eq kad_on id (got_providers end) table (get_providers resp found) here)
        ∙ ap (λ l. l ++ []) (provider_ends-eq kad_on resp end found h),
    λ p. refl,
  )
  get_providers-collects kad_on id resp (b ∷ bs) end found table h here =
      let more = HashSet.extend found b in
      let (all, sent, holds) =
        get_providers-collects kad_on id resp bs end more
          (HashMap.insert id (get_providers resp more) (HashMap.remove id table)) h
          (kept-get id (get_providers resp more) table) in
      (
        all,
        ap (λ r. r.1 ++ (moves (reports_providers kad_on id bs end) r.0).1)
              (result-eq kad_on id (got_providers (found_providers b)) table
                (get_providers resp found) here)
            ∙ sent,
        λ p. ground (arith, holds p, HashSet.contains-extend found b p),
      )

  -- What a record query answers, by how it ends.
  abbrev pub outcome :
      GetRecordResult PeerId Record' PeerInfo → List Record' → Result NetworkError (List Record')
  outcome (record_error text) [] = err (kad_failed text)
  outcome end found = ok found

  ends-eq :
      (kad_on : Bool) (resp : ℕ) (end : GetRecordResult PeerId Record' PeerInfo)
      (found : List Record')
      → is_end end ≡ true
      → (apply_result kad_on (got_record end) (get_record resp found)).1
        ≡ answer resp (records (outcome end found)) ∷ []
  unfolding apply_result apply_get_record
  ends-eq kad_on resp (found_record r) found h = absurd (ground arith)
  ends-eq kad_on resp no_additional_record found h = refl
  ends-eq kad_on resp not_found found h = refl
  ends-eq kad_on resp (record_error text) [] h = refl
  ends-eq kad_on resp (record_error text) (r ∷ found) h = refl

  -- A record query answers once, when it ends: with all records that it found, in their order, however
  -- it ends, but with the error if it found none and ends with an error. If it found none and ends
  -- without an error, by `not_found` too, that is the empty list.
  pub get_record-collects :
      (kad_on : Bool) (id resp : ℕ) (rs : List Record')
      (end : GetRecordResult PeerId Record' PeerInfo) (found : List Record')
      (table : List (ℕ × KadPending PeerId Record' PeerInfo))
      → is_end end ≡ true
      → HashMap.get table id ≡ some (get_record resp found)
      → (moves (reports_records kad_on id rs end) table).1
        ≡ answer resp (records (outcome end (found ++ rs))) ∷ []
  unfolding moves move apply_result apply_get_record
  get_record-collects kad_on id resp [] end found table h here =
      ap (λ t. t.1 ++ []) (result-eq kad_on id (got_record end) table (get_record resp found) here)
      ∙ ap (λ l. l ++ []) (ends-eq kad_on resp end found h)
      ∙ ap (λ l. answer resp (records (outcome end l)) ∷ []) (sym (append-nil found))
  get_record-collects kad_on id resp (r ∷ rs) end found table h here =
      let more = found ++ r ∷ [] in
      let later =
        get_record-collects kad_on id resp rs end more
          (HashMap.insert id (get_record resp more) (HashMap.remove id table)) h
          (kept-get id (get_record resp more) table) in
      ap (λ t. t.1 ++ (moves (reports_records kad_on id rs end) t.0).1)
        (result-eq kad_on id (got_record (found_record r)) table (get_record resp found) here)
      ∙ later
      ∙ ap (λ l. answer resp (records (outcome end l)) ∷ []) (append_assoc found (r ∷ []) rs)
