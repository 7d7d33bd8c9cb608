-- ===== src/Cache.antt =====
-- src/dht_cache.rs: the read-through cache of DHT records. An `Instant` is a number of nanoseconds
-- on the monotonic clock; the fetcher is a parameter, what it returns an argument of the step that
-- ends a refresh. `sum::<usize>()` of the sizes is taken not to overflow.
pub mod Entries
pub mod Evict
pub mod Recency
pub mod Stored
pub mod Runs
pub mod Bounded
pub mod Reached
pub mod Stale
pub mod Operations
