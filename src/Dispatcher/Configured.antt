-- ===== src/Dispatcher/Configured.antt =====
-- src/config.rs and src/service_dispatcher.rs: what the dispatcher, the registry and the workers make of
-- a configuration that `validate` accepts.
use nexus_net.Base.HashMap
use nexus_net.Base.HashSet
use nexus_net.Base.{
  ◌+◌, ◌≡◌, refl, true, false, List, [], ◌∷◌, ◌++◌, foldl, length, Name, name_eq, arith, ok,
  Bool-cases, inl, inr, ◌||◌,
}
use nexus_net.Auth.Naming.{is_valid_service_name}
use nexus_net.Config.Schema.{LocalServiceEntry, NodeConfig}
use nexus_net.Config.Validate.{validate}
use nexus_net.Config.Accepts.{AreServed, usable}
use nexus_net.Registry.Scheduled.{◌implies◌}
use nexus_net.Registry.Actor.{ActorConfig, job_limit}
use nexus_net.Dispatcher.Task.{Task, new_task}
use nexus_net.Dispatcher.Router.{new, spawn, dispatched}
use nexus_net.Command.Dispatch.{new_pool}

-- The loop of `new`, over any table.
abbrev spawn_into : List (Name × Task) → List Name → List (Name × Task)
spawn_into = foldl (λ m name. HashMap.insert name (new_task name) m)

spawn_into-keys :
    (names : List Name) (m : List (Name × Task)) (n : Name)
    → HashMap.contains_key (spawn_into m names) n
      ≡ (HashSet.contains names n || HashMap.contains_key m n)
unfolding HashSet.contains
spawn_into-keys [] m n = refl
spawn_into-keys (x ∷ names) m n = ground (
  arith,
  spawn_into-keys names (HashMap.insert x (new_task x) m) n,
  HashMap.get-insert x n (new_task x) m,
)

-- All keys of the table are among the names that came before.
abbrev IsCovered : List (Name × Task) → List Name → Type 0
IsCovered m names = (n : Name) → (HashMap.contains_key m n implies HashSet.contains names n) ≡ true

IsCovered-more :
    (m : List (Name × Task)) (names : List Name) (x : Name)
    → IsCovered m names
    → IsCovered m (names ++ x ∷ [])
IsCovered-more m names x h = λ n. ground (arith, h n, HashSet.contains-append names (x ∷ []) n)

IsCovered-new :
    (m : List (Name × Task)) (names : List Name) (x : Name)
    → IsCovered m names
    → IsCovered (HashMap.insert x (new_task x) m) (names ++ x ∷ [])
unfolding HashSet.contains
IsCovered-new m names x h = λ n.
    ground
      (arith, h n, HashSet.contains-append names (x ∷ []) n, HashMap.get-insert x n (new_task x) m)

length-insert :
    (x : Name) (t : Task) (m : List (Name × Task))
    → HashMap.contains_key m x ≡ false
    → length (HashMap.insert x t m) ≡ 1 + length m
unfolding HashMap.insert
length-insert x t m free = ground (arith, HashMap.remove_absent x m)

length-spawn_into :
    (names : List Name) (m : List (Name × Task)) (l : List LocalServiceEntry)
    → AreServed names l
    → IsCovered m names
    → length (spawn_into m (dispatched l)) ≡ length (dispatched l) + length m
unfolding dispatched
length-spawn_into names m [] served h = omega arith
length-spawn_into names m (s ∷ l) served h = elim (Bool-cases (is_valid_service_name s.name)) [
  | inl good ↦
      let m' = HashMap.insert s.name (new_task s.name) m in
      let rest : length (spawn_into m' (dispatched l)) ≡ length (dispatched l) + length m' =
        length-spawn_into (names ++ s.name ∷ []) m' l served.2 (IsCovered-new m names s.name h) in
      ground (
        arith,
        good,
        rest,
        length-insert s.name (new_task s.name) m (ground (arith, h s.name, served.0)),
      )
  | inr bad ↦
      let rest : length (spawn_into m (dispatched l)) ≡ length (dispatched l) + length m =
        length-spawn_into (names ++ s.name ∷ []) m l served.2 (IsCovered-more m names s.name h) in
      rw (bad, dispatched) rest
]

-- What the parts make of the configuration.
pub record IsApplied {Addr PeerId : Type 0} (c : NodeConfig Addr) (me : PeerId) : Type 0 where
  -- A backend for each configured service of a valid name, and no other.
  pub backends :
      (n : Name)
      → HashMap.contains_key (new c me).backends n
        ≡ HashSet.contains (dispatched c.services.dispatcher.local_services) n
  pub own : length (new c me).backends ≡ length (dispatched c.services.dispatcher.local_services)
  pub jobs :
      (a : ActorConfig)
      → a.max_inflight ≡ c.services.registry.max_inflight_dht
      → job_limit a ≡ c.services.registry.max_inflight_dht
  pub permits :
      (new_pool c.services.dispatcher.max_inflight_dht).dht_permits
      ≡ c.services.dispatcher.max_inflight_dht

-- A configuration that `validate` accepts is applied as it stands, if its dispatcher is enabled: each
-- configured service of a valid name has a backend, no two of them share one, and there is no other;
-- and the limits on the jobs of the registry and on the workers of commands are not clamped.
pub validate-IsApplied :
    {Addr PeerId : Type 0} (c : NodeConfig Addr) (me : PeerId)
    → validate c ≡ ok tt
    → c.services.dispatcher.enabled ≡ true
    → IsApplied c me
unfolding new spawn new_pool HashMap.get
validate-IsApplied c me accepted on =
    let u = usable c accepted in
    let l = c.services.dispatcher.local_services in
    record {
      backends = λ n. ground (arith, on, spawn_into-keys (dispatched l) [] n);
      own = ground (arith, on, length-spawn_into [] [] l u.services (λ n. refl));
      jobs = λ a same. ground (arith, u.registry_inflight, same);
      permits = ground (arith, u.dispatcher_inflight);
    }
