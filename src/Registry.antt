-- ===== src/Registry.antt =====
-- src/controller/service_registry.rs: the registry that announces local services on the DHT and
-- keeps the shared index of service types. An `Instant` is a number of nanoseconds on the monotonic
-- clock; log lines are left out. A `HashSet<String>` or `HashMap<String, _>` is a list (Base).
pub mod State
pub mod Commands
pub mod Plan
pub mod PlanRule
pub mod Types
pub mod Apply
pub mod Frame
pub mod Scheduled
pub mod Synced
pub mod Generations
pub mod Stale
pub mod Planned
pub mod Actor
