-- ===== src/Command/Remote.antt =====
-- src/controller/command.rs: to whom `request_service` sends, and which list of providers it uses.
use nexus_net.Base.HashSet
use nexus_net.Base.{
  ℕ, zero, suc, ◌+◌, ◌≤◌, ◌==◌, ◌≡◌, ◌≢◌, ◌⊎◌, inl, inr, not, refl, Bool, true, false, Option, none,
  some, List, [], ◌∷◌, ◌++◌, Name, Result, ok, err, select, Eq, arith,
}
use mathlib.Core.List.{append-nil}
use nexus_net.Dispatcher.Types.{Response}
use nexus_net.Swarm.Types.{NetworkError, Request}
use nexus_net.Tracker.Best.{best_peer_cases}
use nexus_net.Command.Service.{
  Node, Event, fetched, invalidated, sent, Verdict, done, again, Traced, send_to_addresses,
  resolved, on_first, send_request_resolved, on_answer, best_or_first, on_candidates, remote,
  on_providers, on_verdict, attempts, request_service,
}

module _ {PeerId : Type 0} ⦃eq : Eq PeerId⦄ (me : PeerId) where
  -- The peer is another one, of the list that is held.
  pub record IsOffered (p : PeerId) (held : Option (List PeerId)) : Type 0 where
    pub remote : p ≢ me
    pub providers : List PeerId
    pub is_held : held ≡ some providers
    pub member : HashSet.contains providers p ≡ true

  -- `held` is the list that was fetched and has not been dropped since. None is fetched while one is
  -- held, and a request goes to another peer of the list that is held.
  abbrev pub Follows : Option (List PeerId) → List (Event PeerId) → Type 0
  Follows held [] = Unit
  Follows held (fetched (ok l) ∷ es) = (held ≡ none) × Follows (some l) es
  Follows held (fetched (err e) ∷ es) = (held ≡ none) × Follows none es
  Follows held (invalidated ∷ es) = Follows none es
  Follows held (sent p ∷ es) = IsOffered p held × Follows held es

  -- An attempt that is followed by another one has dropped its list.
  abbrev Ends : Bool → Verdict → Option (List PeerId) → List (Event PeerId) → Type 0
  Ends true (again error) held es =
      (rest : List (Event PeerId)) → Follows none rest → Follows held (es ++ rest)
  Ends true (done result) held es = Follows held es
  Ends false verdict held es = Follows held es

  remote_cases :
      (providers : List PeerId) (p : PeerId)
      → HashSet.contains (select (λ q. not (eq.beq q me)) providers) p ≡ true
      → IsOffered p (some providers)
  remote_cases providers p h =
      let split = HashSet.contains-select (λ q. not (eq.beq q me)) providers p in
      record {
        remote = λ same. ground (arith, h, split, same, eq.beq_iff p me);
        providers = providers;
        is_held = refl;
        member = ground (arith, h, split);
      }

  fetched-Ends :
      (verdict : Verdict) (l : List PeerId) (es : List (Event PeerId))
      → Ends true verdict (some l) es
      → Ends true verdict none (fetched (ok l) ∷ es)
  fetched-Ends (again error) l es h = λ rest g. (refl, h rest g)
  fetched-Ends (done result) l es h = (refl, h)

  -- One request, or one more to the addresses that were looked up.
  abbrev Sends : PeerId → List (Event PeerId) → Type 0
  Sends p es = (es ≡ sent p ∷ []) ⊎ (es ≡ sent p ∷ sent p ∷ [])

  -- A list is fetched at most as often as attempts are left.
  abbrev pub fetches : List (Event PeerId) → ℕ
  fetches [] = 0
  fetches (fetched l ∷ es) = 1 + fetches es
  fetches (invalidated ∷ es) = fetches es
  fetches (sent p ∷ es) = fetches es

  fetches-append : (xs ys : List (Event PeerId)) → fetches (xs ++ ys) ≡ fetches xs + fetches ys
  fetches-append [] ys = ground arith
  fetches-append (fetched l ∷ xs) ys = ground (arith, fetches-append xs ys)
  fetches-append (invalidated ∷ xs) ys = ground (arith, fetches-append xs ys)
  fetches-append (sent p ∷ xs) ys = ground (arith, fetches-append xs ys)

module _ {W PeerId Multiaddr : Type 0} ⦃eq : Eq PeerId⦄ (node : Node W PeerId Multiaddr)
    (me : PeerId) where
  send_to_addresses-Sends :
      (p : PeerId) (request : Request) (first : NetworkError) (addrs : List Multiaddr) (w : W)
      → Sends me p (sent p ∷ (send_to_addresses node me p request first addrs w).1.0)
  unfolding send_to_addresses
  send_to_addresses-Sends p request first [] w = inl refl
  send_to_addresses-Sends p request first (a ∷ addrs) w = inr refl

  on_first-Sends :
      (p : PeerId) (request : Request) (answer : Result NetworkError Response × W)
      → Sends me p (on_first node me p request answer).1.0
  unfolding on_first
  on_first-Sends p request (ok response, w) = inl refl
  on_first-Sends p request (err first, w) =
      let found = node.get_closest_peers p w in
      send_to_addresses-Sends p request first (resolved node me found.0 p) found.1

  send_request_resolved-Sends :
      (p : PeerId) (request : Request) (w : W)
      → Sends me p (send_request_resolved node me p request w).1.0
  unfolding send_request_resolved
  send_request_resolved-Sends p request w = on_first-Sends p request (node.send_request p request w)

  best_or_first-member :
      (w : W) (c : PeerId) (candidates : List PeerId)
      → HashSet.contains (c ∷ candidates) (best_or_first node me w c candidates) ≡ true
  unfolding best_or_first HashSet.contains
  best_or_first-member w c candidates = elim (best_peer_cases (node.peers w) (c ∷ candidates)) [
    | inl (all, nothing) ↦ rw (nothing, best_or_first) ground (arith, eq.beq_iff c c)
    | inr (p, rtt, found, h) ↦ rw (found, best_or_first) h.member
  ]

  answer-Ends :
      (first : Bool) (held : Option (List PeerId)) (p : PeerId)
      (t : Traced W PeerId (Result Name Response))
      → Sends me p t.1.0
      → IsOffered me p held
      → Ends me first (on_answer node me first t).0 held (on_answer node me first t).1.0
  unfolding on_answer
  answer-Ends true held p (ok response, (events, w)) (inl one) o = rw one (o, tt)
  answer-Ends true held p (ok response, (events, w)) (inr two) o = rw two (o, (o, tt))
  answer-Ends true held p (err error, (events, w)) (inl one) o = λ rest h. rw one (o, h)
  answer-Ends true held p (err error, (events, w)) (inr two) o = λ rest h. rw two (o, (o, h))
  answer-Ends false held p (ok response, (events, w)) (inl one) o = rw one (o, tt)
  answer-Ends false held p (ok response, (events, w)) (inr two) o = rw two (o, (o, tt))
  answer-Ends false held p (err error, (events, w)) (inl one) o = rw one (o, tt)
  answer-Ends false held p (err error, (events, w)) (inr two) o = rw two (o, (o, tt))

  candidates-Ends :
      (first : Bool) (request : Request) (providers candidates : List PeerId) (w : W)
      → ((p : PeerId) → HashSet.contains candidates p ≡ true → IsOffered me p (some providers))
      → Ends me first
          (on_candidates node me first request candidates w).0
          (some providers)
          (on_candidates node me first request candidates w).1.0
  unfolding on_candidates
  candidates-Ends true request providers [] w offered = tt
  candidates-Ends false request providers [] w offered = tt
  candidates-Ends first request providers (c ∷ cs) w offered =
      let best = best_or_first node me w c cs in
      answer-Ends first (some providers) best (send_request_resolved node me best request w)
        (send_request_resolved-Sends best request w) (offered best (best_or_first-member w c cs))

  providers-Ends :
      (first : Bool) (request : Request) (got : Result Name (List PeerId) × W)
      → Ends me first
          (on_providers node me first request got).0
          none
          (on_providers node me first request got).1.0
  unfolding on_providers remote
  providers-Ends true request (err error, w) = λ rest h. (refl, h)
  providers-Ends false request (err error, w) = (refl, tt)
  providers-Ends true request (ok providers, w) =
      let next = on_candidates node me true request (remote node me providers) w in
      fetched-Ends me next.0 providers next.1.0 (
        candidates-Ends true request providers (remote node me providers) w
          (remote_cases me providers))
  providers-Ends false request (ok providers, w) = (
    refl,
    candidates-Ends false request providers (remote node me providers) w
        (remote_cases me providers),
  )

  answer-fetches :
      (first : Bool) (p : PeerId) (t : Traced W PeerId (Result Name Response))
      → Sends me p t.1.0
      → fetches me (on_answer node me first t).1.0 ≡ 0
  unfolding on_answer
  answer-fetches first p (ok response, (events, w)) (inl one) = rw one refl
  answer-fetches first p (ok response, (events, w)) (inr two) = rw two refl
  answer-fetches true p (err error, (events, w)) (inl one) = rw one refl
  answer-fetches true p (err error, (events, w)) (inr two) = rw two refl
  answer-fetches false p (err error, (events, w)) (inl one) = rw one refl
  answer-fetches false p (err error, (events, w)) (inr two) = rw two refl

  candidates-fetches :
      (first : Bool) (request : Request) (candidates : List PeerId) (w : W)
      → fetches me (on_candidates node me first request candidates w).1.0 ≡ 0
  unfolding on_candidates
  candidates-fetches first request [] w = refl
  candidates-fetches first request (c ∷ cs) w =
      let best = best_or_first node me w c cs in
      answer-fetches first best (send_request_resolved node me best request w)
        (send_request_resolved-Sends best request w)

  providers-fetches :
      (first : Bool) (request : Request) (got : Result Name (List PeerId) × W)
      → fetches me (on_providers node me first request got).1.0 ≡ 1
  unfolding on_providers
  providers-fetches true request (err error, w) = refl
  providers-fetches false request (err error, w) = refl
  providers-fetches first request (ok providers, w) =
      ground (arith, candidates-fetches first request (remote node me providers) w)

  -- What follows an attempt.
  verdict-Follows :
      (t : Traced W PeerId Verdict) (next : Name → W → Traced W PeerId (Result Name (List ℕ)))
      → Ends me true t.0 none t.1.0
      → ((error : Name) (w : W) → Follows me none (next error w).1.0)
      → Follows me none (on_verdict node me t next).1.0
  verdict-Follows (done result, (events, w)) next h g = h
  verdict-Follows (again error, (events, w)) next h g = h (next error w).1.0 (g error w)

  verdict_last :
      (t : Traced W PeerId Verdict) (request : Request) (n : ℕ)
      → Follows me none t.1.0
      → Follows me none
          (on_verdict node me t (λ error w. attempts node me 0 n (some error) request w)).1.0
  unfolding attempts
  verdict_last (done result, (events, w)) request n h = h
  verdict_last (again error, (events, w)) request n h = rw (append-nil events) h

  verdict-fetches :
      (t : Traced W PeerId Verdict) (next : Name → W → Traced W PeerId (Result Name (List ℕ)))
      (n : ℕ)
      → fetches me t.1.0 ≡ 1
      → ((error : Name) (w : W) → fetches me (next error w).1.0 ≤ n)
      → fetches me (on_verdict node me t next).1.0 ≤ 1 + n
  verdict-fetches (done result, (events, w)) next n h g = ground (arith, h)
  verdict-fetches (again error, (events, w)) next n h g =
      ground (arith, h, g error w, fetches-append me events (next error w).1.0)

  attempts-fetches :
      (left n : ℕ) (last : Option Name) (request : Request) (w : W)
      → fetches me (attempts node me left n last request w).1.0 ≤ left
  unfolding attempts
  attempts-fetches zero n none request w = omega arith
  attempts-fetches zero n (some error) request w = omega arith
  attempts-fetches (suc left) n last request w =
      let t = on_providers node me (n == 0) request (node.fetch_providers w) in
      let next =
        λ (error : Name) (after : W). attempts node me left (suc n) (some error) request after in
      ground (
        arith,
        verdict-fetches t next left (providers-fetches (n == 0) request (node.fetch_providers w))
            (λ error after. attempts-fetches left (suc n) (some error) request after),
      )

  two_attempts-Follows :
      (request : Request) (w : W) → Follows me none (attempts node me 2 0 none request w).1.0
  unfolding attempts
  two_attempts-Follows request w =
      verdict-Follows (on_providers node me true request (node.fetch_providers w))
        (λ error after. attempts node me 1 1 (some error) request after)
        (providers-Ends true request (node.fetch_providers w))
        (λ error after.
          verdict_last (on_providers node me false request (node.fetch_providers after)) request 2
            (providers-Ends false request (node.fetch_providers after)))

  -- A request for a service goes only to other peers, of the list of providers that was fetched last.
  -- A list is used in one attempt: no second one is fetched before the first was dropped from the
  -- cache, and at most two are fetched.
  pub request_service-Follows :
      (request : Request) (w : W)
      → Follows me none (request_service node me request w).1.0
        × (fetches me (request_service node me request w).1.0 ≤ 2)
  unfolding request_service
  request_service-Follows request w =
      (two_attempts-Follows request w, attempts-fetches 2 0 none request w)
