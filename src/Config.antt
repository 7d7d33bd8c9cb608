-- ===== src/Config.antt =====
-- src/config.rs and src/limits.rs: the schema of the node's configuration, its defaults, its check
-- and the accessors of `ConfigHandle`. An address (`Multiaddr`) is a parameter `Addr`.
pub mod Schema
pub mod Validate
pub mod Access
pub mod Accepts
