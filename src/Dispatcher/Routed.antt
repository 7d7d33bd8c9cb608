-- ===== src/Dispatcher/Routed.antt =====
-- src/service_dispatcher.rs: which messages stay on this node.
use nexus_net.Base.HashSet
use nexus_net.Base.{
  ℕ, ◌≡◌, inl, inr, refl, true, false, Option, List, Name, name_eq, Eq, arith, Bool-cases,
}
use nexus_net.Sidecar.Message.{Message, service_request, service_request_to}
use nexus_net.Dispatcher.Routing.{LocalRoute, local, reject, remote, is_me, route_local, not_ready}

module _ {PeerId : Type 0} ⦃e : Eq PeerId⦄ (parse : Name → Option PeerId) (ready : List Name)
    (me : PeerId) where
  -- A request of a service that this node may serve, by its name or by this node's peer id.
  abbrev pub For : Name → Message → Type 0
  For s (service_request u t payload) = t ≡ s
  For s (service_request_to u t peer payload) = (t ≡ s) × (is_me parse me peer ≡ true)
  For s _ = ⊥

  -- Where a message goes, and why.
  pub data Goes (msg : Message) : LocalRoute → Type 0 where
    to_backend : (s : Name) → For s msg → HashSet.contains ready s ≡ true → Goes msg (local s)
    nowhere :
        (s : Name) {u : List ℕ} {peer : Name} {payload : List ℕ}
        → msg ≡ service_request_to u s peer payload
        → is_me parse me peer ≡ true
        → HashSet.contains ready s ≡ false
        → Goes msg (reject (not_ready s))
    to_node : ((s : Name) → For s msg → HashSet.contains ready s ≡ false) → Goes msg remote

  -- A message goes to the backend of a service only if it is a request of that service which this
  -- node may serve and the backend is ready; it is rejected only if it names this node and the
  -- backend is not ready; it goes to the node only if no ready backend is asked.
  pub route_local-Goes : (msg : Message) → Goes msg (route_local parse ready me msg)
  unfolding route_local
  route_local-Goes (service_request u s payload) = elim (Bool-cases (HashSet.contains ready s)) [
    | inl is_in ↦ rw (is_in, route_local) (to_backend s refl is_in)
    | inr is_out ↦ rw (is_out, route_local) (to_node λ t h. ground (arith, h))
  ]
  route_local-Goes (service_request_to u s peer payload) = elim (Bool-cases (is_me parse me peer)) [
    | inr not_me ↦ rw (not_me, route_local) (to_node λ t h. absurd (ground (arith, h.1)))
    | inl here ↦ elim (Bool-cases (HashSet.contains ready s)) [
      | inl is_in ↦ rw (here, is_in, route_local) (to_backend s (refl, here) is_in)
      | inr is_out ↦ rw (here, is_out, route_local) (nowhere s refl here is_out)
    ]
  ]
  route_local-Goes _ = to_node λ s h. absurd h
