-- ===== src/Registry/Frame.antt =====
-- What the loops of `replace_backend_ready` leave alone.
use nexus_net.Base.{ℕ, ◌≡◌, List, [], ◌∷◌, foldl, Name, arith}
use nexus_net.Registry.State.{RegistryState}
use nexus_net.Registry.Commands.{replace_backend_ready, became_ready, became_unready, difference}

pub record Keeps (s t : RegistryState) : Type 0 where
  pub need_relay : t.need_relay ≡ s.need_relay
  pub active_relays : t.active_relays ≡ s.active_relays
  pub backend_ready : t.backend_ready ≡ s.backend_ready
  pub announced : t.announced ≡ s.announced
  pub relay_withdraw : t.relay_withdraw ≡ s.relay_withdraw
  pub announce_inflight : t.announce_inflight ≡ s.announce_inflight
  pub withdraw_inflight : t.withdraw_inflight ≡ s.withdraw_inflight
  pub bootstrapped : t.bootstrapped ≡ s.bootstrapped
  pub known_types : t.known_types ≡ s.known_types
  pub reconcile : t.reconcile ≡ s.reconcile
  pub reconcile_dirty : t.reconcile_dirty ≡ s.reconcile_dirty
  pub next_types_sync : t.next_types_sync ≡ s.next_types_sync
  pub pending_types_write : t.pending_types_write ≡ s.pending_types_write
  pub generation : t.generation ≡ s.generation

pub became_ready-Keeps : (l : List Name) (s : RegistryState) → Keeps s (foldl became_ready s l)
unfolding became_ready
became_ready-Keeps [] s = ground arith
became_ready-Keeps (x ∷ xs) s = ground (arith, became_ready-Keeps xs (became_ready s x))

pub became_unready-Keeps :
    (now : ℕ) (l : List Name) (s : RegistryState) → Keeps s (foldl (became_unready now) s l)
unfolding became_unready
became_unready-Keeps now [] s = ground arith
became_unready-Keeps now (x ∷ xs) s =
    ground (arith, became_unready-Keeps now xs (became_unready now s x))

-- `replace_backend_ready` leaves these fields, and sets `backend_ready`.
pub replace_backend_ready-Keeps :
    (ready : List Name) (now : ℕ) (s : RegistryState)
    → Keeps (record s { backend_ready = ready }) (replace_backend_ready ready now s)
unfolding replace_backend_ready
replace_backend_ready-Keeps ready now s =
    let t = record s { backend_ready = ready } in
    let entered = foldl became_ready t (difference ready s.backend_ready) in
    ground (
      arith,
      became_ready-Keeps (difference ready s.backend_ready) t,
      became_unready-Keeps now (difference s.backend_ready ready) entered,
    )
